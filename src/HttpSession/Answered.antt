-- ===== src/HttpSession/Answered.antt =====
-- What a session has answered when it ends.
use servertech_chat.Prelude.{ℕ, suc, true, false, List, [], ◌∷◌, ◌++◌, length, All, ◌≡◌, ap}
use servertech_chat.RequestContext.{Response}
use servertech_chat.HttpSession.Session.{
  End, closed_by_client, not_kept_alive, read_failed, accept_failed, write_failed, chat_over,
  no_response,
}

abbrev pub KeepsAlive : Response → Type 0
KeepsAlive r = r.keep_alive ≡ true

-- All responses but the last.
abbrev pub KeepAliveUpTo : Response → List Response → Type 0
KeepAliveUpTo last rs =
    (before : List Response) × (rs ≡ before ++ last ∷ []) × All KeepsAlive before

-- What a session has answered to `n` requests, by its end.
abbrev pub Answered : End → ℕ → List Response → Type 0
Answered closed_by_client n rs = (n ≡ length rs) × All KeepsAlive rs
Answered not_kept_alive n rs =
    (n ≡ length rs) × (last : Response) × (last.keep_alive ≡ false) × KeepAliveUpTo last rs
Answered (read_failed e) n rs = (n ≡ length rs) × All KeepsAlive rs
Answered (accept_failed e) n rs = (n ≡ length rs) × All KeepsAlive rs
Answered (write_failed e) n rs = (n ≡ length rs) × (last : Response) × KeepAliveUpTo last rs
Answered (chat_over r) n rs = (n ≡ length rs) × All KeepsAlive rs
Answered no_response n rs = (n ≡ suc (length rs)) × All KeepsAlive rs

KeepAliveUpTo-cons :
    (r last : Response) (rs : List Response)
    → KeepsAlive r
    → KeepAliveUpTo last rs
    → KeepAliveUpTo last (r ∷ rs)
KeepAliveUpTo-cons r last rs k (before, e, ks) = (r ∷ before, ap (λ x. r ∷ x) e, (k, ks))

pub Answered-cons :
    (e : End) (n : ℕ) (rs : List Response) (r : Response)
    → KeepsAlive r
    → Answered e n rs
    → Answered e (suc n) (r ∷ rs)
Answered-cons closed_by_client n rs r k (h, ks) = (ap suc h, (k, ks))
Answered-cons not_kept_alive n rs r k (h, last, closes, ks) =
    (ap suc h, last, closes, KeepAliveUpTo-cons r last rs k ks)
Answered-cons (read_failed e) n rs r k (h, ks) = (ap suc h, (k, ks))
Answered-cons (accept_failed e) n rs r k (h, ks) = (ap suc h, (k, ks))
Answered-cons (write_failed e) n rs r k (h, last, ks) =
    (ap suc h, last, KeepAliveUpTo-cons r last rs k ks)
Answered-cons (chat_over c) n rs r k (h, ks) = (ap suc h, (k, ks))
Answered-cons no_response n rs r k (h, ks) = (ap suc h, (k, ks))
