-- ===== src/AsyncMutex/Waiters.antt =====
-- What async_mutex relies on of boost::asio::experimental::channel<void(error_code)> with its
-- default capacity of zero: a receiver waits in line, and try_send hands its value to the first
-- one in line, or fails if there is none.
use servertech_chat.Prelude.{ℕ, List, [], ◌∷◌, ◌++◌, Option, none, some, ◌≡◌, refl}

pub record Channel : Type 1 where
  pub Chan : Type 0
  pub empty : Chan
  pub async_receive : ℕ → Chan → Chan
  pub try_send : Chan → Option ℕ × Chan
  pub waiting : Chan → List ℕ
  pub waiting-empty : waiting empty ≡ []
  pub waiting-async_receive : (t : ℕ) (c : Chan) → waiting (async_receive t c) ≡ waiting c ++ t ∷ []
  pub try_send_none :
      (c : Chan) → waiting c ≡ [] → ((try_send c).0 ≡ none) × (waiting (try_send c).1 ≡ [])
  pub try_send_some :
      (c : Chan) (t : ℕ) (ts : List ℕ)
      → waiting c ≡ t ∷ ts
      → ((try_send c).0 ≡ some t) × (waiting (try_send c).1 ≡ ts)

-- A channel as the line of its receivers.
abbrev pub send_first : List ℕ → Option ℕ × List ℕ
send_first [] = (none, [])
send_first (t ∷ ts) = (some t, ts)

pub send_first-none : (c : List ℕ) → c ≡ [] → ((send_first c).0 ≡ none) × ((send_first c).1 ≡ [])
send_first-none c e = rw e (refl, refl)

pub send_first-some :
    (c : List ℕ) (t : ℕ) (ts : List ℕ)
    → c ≡ t ∷ ts
    → ((send_first c).0 ≡ some t) × ((send_first c).1 ≡ ts)
send_first-some c t ts e = rw e (refl, refl)

abbrev pub line : Channel
line = record {
  Chan = List ℕ;
  empty = [];
  async_receive = λ t c. c ++ t ∷ [];
  try_send = send_first;
  waiting = λ c. c;
  waiting-empty = refl;
  waiting-async_receive = λ t c. refl;
  try_send_none = send_first-none;
  try_send_some = send_first-some;
}
