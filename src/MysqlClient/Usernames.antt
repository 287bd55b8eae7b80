-- ===== src/MysqlClient/Usernames.antt =====
-- The usernames that get_usernames looks up.
use servertech_chat.Prelude.{
  true, false, Bool-cases, Bytes, List, [], ◌∷◌, map, if◌then◌else◌, ◌≡◌, inl, inr, refl, ap, ◌∙◌,
  subst, arith,
}
use servertech_chat.Prelude.Decimal.{ℤ}
use servertech_chat.Error.{ErrorWithMessage, Result, ok}
use servertech_chat.Exec.{Exec, continue, ◌>>=◌}
use servertech_chat.BusinessTypes.{UsernameMap}
use servertech_chat.RoomHistoryService.{same_id, contains}
use servertech_chat.RoomHistoryService.UserIds.{same_id→eq}
use servertech_chat.ApiTypes.Outgoing.{username_of}
use servertech_chat.MysqlClient.Pool.{numbers, MysqlPool}
use servertech_chat.MysqlClient.Client.{usernames_code, has_key, insert_rows, get_usernames}
use servertech_chat.MysqlClient.Table.{Row, matching, name_in, named, Answers, answer, SqlLaws}
use servertech_chat.MysqlClient.Table

username_of-absent : (res : UsernameMap) (id : ℤ) → has_key id res ≡ false → username_of res id ≡ []
unfolding has_key username_of
username_of-absent [] id h = refl
username_of-absent ((key, username) ∷ res) id h = ground (arith, username_of-absent res id)

-- The map has what it had, and else what the rows say.
username_of-insert_rows :
    (rows : List (ℤ × Bytes)) (res : UsernameMap) (id : ℤ)
    → username_of (insert_rows rows res) id
      ≡ (if has_key id res then username_of res id else username_of rows id)
unfolding insert_rows has_key username_of
username_of-insert_rows [] res id = ground (arith, username_of-absent res id)
username_of-insert_rows ((key, username) ∷ rows) res id = elim (Bool-cases (has_key key res)) [
  | inl old ↦ rw old (username_of-insert_rows rows res id ∙ old_key old)
  | inr new ↦ rw new (username_of-insert_rows rows ((key, username) ∷ res) id ∙ new_key new)
]
  where
    old_key :
        has_key key res ≡ true
        → (if has_key id res then username_of res id else username_of rows id)
          ≡ (if has_key id res then username_of res id else username_of ((key, username) ∷ rows) id)
    old_key old = elim (Bool-cases (same_id key id)) [
      | inl same ↦
          let k : has_key id res ≡ true =
            subst (λ x. has_key x res ≡ true) (same_id→eq key id same) old in
          rw k refl
      | inr other ↦ rw other refl
    ]

    new_key :
        has_key key res ≡ false
        → (if has_key id ((key, username) ∷ res)
            then username_of ((key, username) ∷ res) id
            else username_of rows id)
          ≡ (if has_key id res then username_of res id else username_of ((key, username) ∷ rows) id)
    new_key new = elim (Bool-cases (same_id key id)) [
      | inl same ↦
          let k : has_key id res ≡ false =
            subst (λ x. has_key x res ≡ false) (same_id→eq key id same) new in
          rw (same, k) refl
      | inr other ↦ rw other refl
    ]

username_of-matching :
    (t : List Row) (ids : List ℤ) (id : ℤ)
    → contains id ids ≡ true
    → username_of (map named (matching (λ row. contains row.id ids) t)) id ≡ name_in t id
unfolding username_of
username_of-matching [] ids id h = refl
username_of-matching (row ∷ t) ids id h =
    ground (arith, h, username_of-matching t ids id h, same_id→eq row.id id)

module _ {World : Type 0} (pool : MysqlPool World) (laws : SqlLaws pool) where
  open pool use {async_get_connection, async_execute_pairs, return_without_reset}
  open laws use {table}

  -- Over a server that keeps SqlLaws, where get_usernames succeeds, the map has for each number
  -- asked for the username of the first row with that number, or none where no row has it.
  get_usernames-username_of :
      (ids : List ℤ) (w : World) (m : UsernameMap) (id : ℤ)
      → (get_usernames pool ids w).0 ≡ ok m
      → contains id ids ≡ true
      → username_of m id ≡ name_in (table w) id
  unfolding get_usernames contains has_key
  get_usernames-username_of [] w m id done listed = cc
  get_usernames-username_of (i ∷ ids) w m id done listed =
      connected (async_get_connection w).0 (async_get_connection w).1 (laws.connection w)
        (laws.connection-table w) done
    where
      ask : Exec World (List (ℤ × Bytes))
      ask = async_execute_pairs usernames_code (numbers (i ∷ ids) ∷ [])

      answer_of : List (ℤ × Bytes) → Exec World UsernameMap
      answer_of rows w = (ok (insert_rows rows []), return_without_reset w)

      asked :
          (r : Result ErrorWithMessage (List (ℤ × Bytes))) (w' : World)
          → Answers
              (λ rows. rows ≡ map named (matching (λ row. contains row.id (i ∷ ids)) (table w)))
              r
          → (continue r answer_of w').0 ≡ ok m
          → username_of m id ≡ name_in (table w) id
      asked r w' (answer rows e) done =
          let same : insert_rows rows [] ≡ m = cc done in
          subst (λ x. username_of x id ≡ name_in (table w) id) same
            (username_of-insert_rows rows [] id
              ∙ (ap (λ x. username_of x id) e ∙ username_of-matching (table w) (i ∷ ids) id listed))
      asked r w' (Table.Answers.fails x foreign) done = cc

      connected :
          (c : Result ErrorWithMessage (Unit {0})) (w' : World)
          → Answers (λ conn. Unit {0}) c
          → table w' ≡ table w
          → (continue c (λ conn. ask >>= answer_of) w').0 ≡ ok m
          → username_of m id ≡ name_in (table w) id
      connected c w' (answer a p) kept done =
          let (rows, _) = laws.by_ids i ids w' in
          asked (ask w').0 (ask w').1
            (subst
              (λ t.
                Answers (λ rows. rows ≡ map named (matching (λ row. contains row.id (i ∷ ids)) t))
                  (ask w').0)
              kept rows)
            done
      connected c w' (Table.Answers.fails x foreign) kept done = cc
