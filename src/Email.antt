-- ===== src/Email.antt =====
-- server/src/util/email.cpp. The expression is matched against the bytes of the text one by one, as
-- boost::regex_match does with chars; Boost.Regex's `.` is any of them. What `\s` stands for is
-- ICU's, and given.
pub mod Expressions
pub mod Matcher
pub mod Shape
pub mod Parts
pub mod Domain
pub mod Described
use servertech_chat.Prelude.{ℕ, leb, ◌==◌, ◌&&◌, ◌||◌, not, Bool, false, Bytes, codes, [], ◌∷◌}
use Expressions.{Regex, one, seq, alt, star, literal, plus, one_to_three, two_or_more, matches}

abbrev pub mem : ℕ → Bytes → Bool
mem c [] = false
mem c (x ∷ xs) = let rest = mem c xs in c == x || rest

abbrev pub is_letter : ℕ → Bool
is_letter c = leb b'a' c && leb c b'z' || leb b'A' c && leb c b'Z'

abbrev pub is_digit : ℕ → Bool
is_digit c = leb b'0' c && leb c b'9'

module _ (is_space : ℕ → Bool) where
  -- [^<>()\[\]\\.,;:\s@"]
  abbrev pub is_atom : ℕ → Bool
  is_atom c = not (mem c (codes "<>()[]\\.,;:@\"") || is_space c)

  -- [^<>()\[\]\\.,;:\s@"]+(\.[^<>()\[\]\\.,;:\s@"]+)*
  abbrev pub dotted_atoms : Regex
  dotted_atoms = seq (plus (one is_atom)) (star (seq (literal b'.') (plus (one is_atom))))

  -- ".+"
  abbrev pub quoted : Regex
  quoted = seq (literal b'"') (seq (plus (one (λ c. leb 0 c))) (literal b'"'))

  -- \[[0-9]{1,3}\.[0-9]{1,3}\.[0-9]{1,3}\.[0-9]{1,3}]
  abbrev pub octet : Regex
  octet = one_to_three (one is_digit)

  abbrev pub address_literal : Regex
  address_literal = seq (literal b'[') (
      seq octet (
        seq (literal b'.') (
          seq octet
            (seq (literal b'.') (seq octet (seq (literal b'.') (seq octet (literal b']'))))))))

  -- ([a-zA-Z\-0-9]+\.)+[a-zA-Z]{2,}
  abbrev pub domain_name : Regex
  domain_name =
      seq (plus (seq (plus (one (λ c. is_letter c || c == b'-' || is_digit c))) (literal b'.')))
        (two_or_more (one is_letter))

  abbrev pub local_part : Regex
  local_part = alt dotted_atoms quoted

  abbrev pub domain : Regex
  domain = alt address_literal domain_name

  unfoldable pub email_regex : Regex
  email_regex = seq local_part (seq (literal b'@') domain)

  unfoldable pub is_email : Bytes → Bool
  unfolding email_regex matches
  is_email email = matches email_regex email
