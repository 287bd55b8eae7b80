-- ===== src/MysqlClient/Refines.antt =====
-- The client implements what is promised of the table of users.
use servertech_chat.Prelude.{
  ℕ, ==_refl, lt→ltb, ◌^◌, Bool, true, false, Bytes, codes, str_eq, List, [], ◌∷◌, ◌++◌,
  append_assoc, map, some, ◌≡◌, refl, ap, sym, ◌∙◌, subst,
}
use servertech_chat.Prelude.Decimal.{ℤ, pos, negsuc}
use servertech_chat.Error.{ErrorWithMessage, Result, ok, err}
use servertech_chat.Exec.{Exec, continue, ◌>>=◌, lift}
use servertech_chat.RoomHistoryService.{same_id}
use servertech_chat.MysqlClient.Suffix.{ends_with, ends_with-append}
use servertech_chat.MysqlClient.Pool.{text, number, MysqlPool}
use servertech_chat.MysqlClient.Client.{
  insert_code, by_email_code, by_id_code, to_int64, insertion, first_row, create_user,
  get_user_by_email, get_user_by_id,
}
use servertech_chat.MysqlClient.Table.{
  Row, any, matching, first, auth_user, user, IsForeign, username_taken, email_taken, Creates,
  created, username_exists, email_exists, Finds, found, absent, Answers, answer, duplicate, Inserts,
  inserted, duplicates_username, duplicates_email, SqlLaws,
}
use servertech_chat.MysqlClient.Table

abbrev pub username_key : Bytes
username_key = codes "'users.username'"

abbrev pub email_key : Bytes
email_key = codes "'users.email'"

-- A message about one key does not end in the other.
ends_in_username :
    (entry : Bytes) → ends_with (entry ++ (codes " for key " ++ username_key)) username_key ≡ true
unfolding str_eq
ends_in_username entry =
    ap (λ s. ends_with s username_key) (sym (append_assoc entry (codes " for key ") username_key))
    ∙ ends_with-append (entry ++ codes " for key ") username_key username_key refl
    ∙ refl

ends_in_email :
    (entry : Bytes) → ends_with (entry ++ (codes " for key " ++ email_key)) email_key ≡ true
unfolding str_eq
ends_in_email entry =
    ap (λ s. ends_with s email_key) (sym (append_assoc entry (codes " for key ") email_key))
    ∙ ends_with-append (entry ++ codes " for key ") email_key email_key refl
    ∙ refl

not_in_username :
    (entry : Bytes) → ends_with (entry ++ (codes " for key " ++ email_key)) username_key ≡ false
unfolding str_eq
not_in_username entry =
    ap (λ s. ends_with s username_key)
      (sym (append_assoc entry (codes " for k") (codes "ey 'users.email'")))
    ∙ ends_with-append (entry ++ codes " for k") (codes "ey 'users.email'") username_key refl
    ∙ refl

pub first-matching :
    (p : Row → Bool) (t : List Row) (row : Row) (rows : List Row)
    → t ≡ row ∷ rows
    → p row ≡ true
    → first (matching p t) ≡ some row
first-matching p t row rows is_cons h = rw (is_cons, h) refl

module _ {World : Type 0} (pool : MysqlPool World) (laws : SqlLaws pool) where
  open pool use {is_dup_entry, async_get_connection}
  open laws use {table, same}

  Inserts-Creates :
      (u e h : Bytes) (w : World) (r : Result ErrorWithMessage ℕ) (w' : World)
      → Inserts pool same table u e h w r w'
      → Creates same u e h (table w) (insertion is_dup_entry r) (table w')
  unfolding insertion to_int64
  Inserts-Creates u e h w r w' (inserted n _ small no_u no_e no_id after) =
      subst (λ t. Creates same u e h (table w) (ok (to_int64 n)) t) (sym after)
        (rw (lt→ltb n (2 ^ 63) small) (created (pos n) no_u no_e no_id))
  Inserts-Creates u e h w r w' (duplicates_username ec entry _ dup taken after) =
      subst
        (λ t.
          Creates same u e h (table w)
            (insertion is_dup_entry (err (duplicate pool ec entry username_key))) t)
        (sym after) (rw (dup, ends_in_username entry) (username_exists taken))
  Inserts-Creates u e h w r w' (duplicates_email ec entry _ dup taken after) =
      subst
        (λ t.
          Creates same u e h (table w)
            (insertion is_dup_entry (err (duplicate pool ec entry email_key))) t)
        (sym after) (rw (dup, not_in_username entry, ends_in_email entry) (email_exists taken))
  Inserts-Creates u e h w r w' (Table.Inserts.fails x _ dup foreign) =
      rw dup (Table.Creates.fails x (table w') foreign)

  -- Over a server that keeps SqlLaws, create_user does what is promised of the table of users: it
  -- stores a row with a new number where the username and the email are free, says username_exists
  -- or email_exists, and leaves the table alone, only where that one is taken, and fails otherwise
  -- with an error code that is not of this program.
  pub create_user-Creates :
      (username email password : Bytes) (w : World)
      → let (r, w') = create_user pool username email password w in
        Creates same username email password (table w) r (table w')
  unfolding create_user
  create_user-Creates u e h w =
      connected (async_get_connection w).0 (async_get_connection w).1 (laws.connection w)
        (laws.connection-table w)
    where
      insert : (w : World) → Result ErrorWithMessage ℤ × World
      insert w =
          let (r, w') = pool.async_execute insert_code (text u ∷ text e ∷ text h ∷ []) w in
          (insertion is_dup_entry r, w')

      connected :
          (c : Result ErrorWithMessage (Unit {0})) (w' : World)
          → Answers (λ conn. Unit {0}) c
          → table w' ≡ table w
          → let (r, w'') = continue c (λ conn. insert) w' in
            Creates same u e h (table w) r (table w'')
      connected c w' (answer a p) kept =
          subst (λ t. Creates same u e h t (insert w').0 (table (insert w').1)) kept
            (Inserts-Creates u e h w' _ _ (laws.insert u e h w'))
      connected c w' (Table.Answers.fails x foreign) kept = Table.Creates.fails x (table w') foreign

  -- Both lookups: a connection, rows of the table, and the first of them.
  look_up-Finds :
      {A : Type 0} (of_row : Row → A) (p : Row → Bool) (select : Exec World (List A))
      → ((w : World)
          → Answers (λ rows. rows ≡ map of_row (matching p (table w))) (select w).0
            × (table (select w).1 ≡ table w))
      → (w : World)
      → let (r, w') =
          (async_get_connection >>= λ conn. select >>= λ rows. lift (first_row rows)) w in
        Finds of_row (first (matching p (table w))) r × (table w' ≡ table w)
  look_up-Finds {A = A} of_row p select selects w =
      connected (async_get_connection w).0 (async_get_connection w).1 (laws.connection w)
        (laws.connection-table w)
    where
      row_of : (o : List Row) → Finds of_row (first o) (first_row (map of_row o))
      row_of [] = absent
      row_of (row ∷ rows) = found row

      selected :
          (t : List Row) (r : Result ErrorWithMessage (List A)) (w' : World)
          → Answers (λ rows. rows ≡ map of_row (matching p t)) r
          → table w' ≡ t
          → let (out, w'') = continue r (λ rows. lift (first_row rows)) w' in
            Finds of_row (first (matching p t)) out × (table w'' ≡ t)
      selected t r w' (answer rows e) kept = (
        subst (λ x. Finds of_row (first (matching p t)) (first_row x)) (sym e)
            (row_of (matching p t)),
        kept,
      )
      selected t r w' (Table.Answers.fails x foreign) kept = (Table.Finds.fails _ x foreign, kept)

      connected :
          (c : Result ErrorWithMessage (Unit {0})) (w' : World)
          → Answers (λ conn. Unit {0}) c
          → table w' ≡ table w
          → let (r, w'') = continue c (λ conn. select >>= λ rows. lift (first_row rows)) w' in
            Finds of_row (first (matching p (table w))) r × (table w'' ≡ table w)
      connected c w' (answer a done) kept =
          let (rows, same_table) = selects w' in
          selected (table w) (select w').0 (select w').1
            (subst (λ t. Answers (λ rows. rows ≡ map of_row (matching p t)) (select w').0) kept
              rows)
            (same_table ∙ kept)
      connected c w' (Table.Answers.fails x foreign) kept = (Table.Finds.fails _ x foreign, kept)

  -- get_user_by_email finds the first row with the email, and changes nothing.
  pub get_user_by_email-Finds :
      (email : Bytes) (w : World)
      → let (r, w') = get_user_by_email pool email w in
        Finds auth_user (first (matching (λ row. same row.email email) (table w))) r
        × (table w' ≡ table w)
  unfolding get_user_by_email
  get_user_by_email-Finds email w =
      look_up-Finds auth_user (λ row. same row.email email)
        (pool.async_execute_auth_users by_email_code (text email ∷ [])) (laws.by_email email) w

  -- get_user_by_id finds the first row with the number, and changes nothing.
  pub get_user_by_id-Finds :
      (id : ℤ) (w : World)
      → let (r, w') = get_user_by_id pool id w in
        Finds user (first (matching (λ row. same_id row.id id) (table w))) r × (table w' ≡ table w)
  unfolding get_user_by_id
  get_user_by_id-Finds id w =
      look_up-Finds user (λ row. same_id row.id id)
        (pool.async_execute_users by_id_code (number id ∷ [])) (laws.by_id id) w

  pub same_id_refl : (id : ℤ) → same_id id id ≡ true
  same_id_refl (pos n) = ==_refl n
  same_id_refl (negsuc n) = ==_refl n

  -- The row that create_user has stored.
  pub Creates-row :
      (u e h : Bytes) (t t' : List Row) (r : Result ErrorWithMessage ℤ) (id : ℤ)
      → Creates same u e h t r t'
      → r ≡ ok id
      → t' ≡ record { id = id; username = u; email = e; password = h } ∷ t
  Creates-row u e h t t' r id (created n no_u no_e no_id) same_result =
      let k : n ≡ id = cc same_result in
      ap (λ x. record { id = x; username = u; email = e; password = h } ∷ t) k
  Creates-row u e h t t' r id (username_exists taken) same_result = cc
  Creates-row u e h t t' r id (email_exists taken) same_result = cc
  Creates-row u e h t t' r id (Table.Creates.fails x _ foreign) same_result = cc

  -- Both lookups find the row that create_user has stored.
  pub create_user-found :
      (username email password : Bytes) (w : World) (id : ℤ)
      → (create_user pool username email password w).0 ≡ ok id
      → let w' = (create_user pool username email password w).1 in
        let row : Row = record {
          id = id;
          username = username;
          email = email;
          password = password;
        } in
        Finds auth_user (some row) (get_user_by_email pool email w').0
        × Finds user (some row) (get_user_by_id pool id w').0
  create_user-found u e h w id done =
      let w' = (create_user pool u e h w).1 in
      let after = Creates-row u e h (table w) (table w') _ id (create_user-Creates u e h w) done in
      (
        subst (λ o. Finds auth_user o (get_user_by_email pool e w').0)
            (first-matching (λ row. same row.email e) (table w') _ (table w) after
              (laws.same_refl e))
            (get_user_by_email-Finds e w').0,
        subst (λ o. Finds user o (get_user_by_id pool id w').0)
            (first-matching (λ row. same_id row.id id) (table w') _ (table w) after
              (same_id_refl id))
            (get_user_by_id-Finds id w').0,
      )
