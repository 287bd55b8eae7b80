-- ===== src/HttpSession/Routes.antt =====
-- Which requests reach which handler.
use servertech_chat.Prelude.{◌≡◌, ◌≢◌, ◌⊎◌, ◌&&◌, false, Bytes, codes, List, [], ◌∷◌, str_eq, Bool}
use servertech_chat.StaticFiles.{Verb}
use servertech_chat.HttpSession.{
  Route, past_the_end, create_account, login, method_refused, unknown_endpoint, static_file, is_end,
}

abbrev pub create_account_path : List Bytes
create_account_path = codes "api" ∷ codes "create-account" ∷ []

abbrev pub login_path : List Bytes
login_path = codes "api" ∷ codes "login" ∷ []

-- What the server is to do with a request, given the decoded segments of its target.
abbrev pub Serves : Verb → List Bytes → Route → Type 0
Serves method segs create_account = (method ≡ Verb.post) × (segs ≡ create_account_path)
Serves method segs login = (method ≡ Verb.post) × (segs ≡ login_path)
Serves method segs method_refused =
    (method ≢ Verb.post) × ((segs ≡ create_account_path) ⊎ (segs ≡ login_path))
Serves method segs unknown_endpoint =
    ((seg : Bytes) × (more : List Bytes) × (segs ≡ codes "api" ∷ seg ∷ more))
    × (segs ≢ create_account_path)
    × (segs ≢ login_path)
Serves method segs static_file = (behind : List Bytes) → segs ≢ codes "api" ∷ behind
Serves method segs past_the_end = segs ≡ codes "api" ∷ []

abbrev first : List Bytes → Bool
first [] = false
first (front ∷ segs) = str_eq front (codes "api")

abbrev second : Bytes → List Bytes → Bool
second s (front ∷ seg ∷ it) = str_eq seg s && is_end it
second s _ = false
