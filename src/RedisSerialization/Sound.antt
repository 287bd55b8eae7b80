-- ===== src/RedisSerialization/Sound.antt =====
-- What the parser accepts is a sequence of well-formed responses.
use servertech_chat.Prelude.{
  ℕ, zero, suc, false, Bytes, List, [], ◌∷◌, ◌++◌, some, ◌≡◌, inl, inr, refl, sym, subst, ap, ◌∙◌,
  length, ◌<◌, arith, append_assoc, append-nil,
}
use servertech_chat.Error.{ErrorCode, Result, ok, ◌>>=◌, >>=-eq-ok}
use servertech_chat.BusinessTypes.{Message, MessageBatch}
use servertech_chat.RedisSerialization.Grammar.{
  Entry, Response, node, entry_nodes, entries_nodes, nodes_of, Reads, ReadsAll, Batches,
}
use servertech_chat.RedisSerialization.Grammar
use servertech_chat.RedisSerialization.Accepts.{batch, between, push_message_lem}
use servertech_chat.RedisSerialization.{
  array, Node, RedisWireMessage, to_message, wants_id, wants_attr_list, wants_key, wants_value,
  Parser, init, is_final, take_value, step, steps, finish, parse_room_history_batch,
}
use servertech_chat.RedisSerialization.States.{
  after_start, after_between, after_id, after_attr_list, after_key, after_value,
}

module _ (parse_payload : Bytes → Result ErrorCode RedisWireMessage) where
  -- The rest of a run.
  abbrev run : Parser → List Node → Result ErrorCode (List MessageBatch)
  run p nodes = do q ← steps parse_payload p nodes; finish q

  run-step :
      (p : Parser) (n : Node) (nodes : List Node) (bs : List MessageBatch)
      → run p (n ∷ nodes) ≡ ok bs
      → (q : Parser) × (step parse_payload p.state p n ≡ ok q) × (run q nodes ≡ ok bs)
  unfolding steps
  run-step p n nodes bs e =
      let (last, all_steps, fin) = >>=-eq-ok (steps parse_payload p (n ∷ nodes)) finish e in
      let (q, s, others) =
        >>=-eq-ok (step parse_payload p.state p n) (λ q. steps parse_payload q nodes) all_steps in
      (q, s, rw others fin)

  -- A run that is not over takes a node.
  peel :
      (p : Parser) (nodes : List Node) (bs : List MessageBatch)
      → is_final p.state ≡ false
      → run p nodes ≡ ok bs
      → (n : Node) × (rest : List Node) × (q : Parser) × (nodes ≡ n ∷ rest)
        × (step parse_payload p.state p n ≡ ok q)
        × (run q rest ≡ ok bs)
  peel p [] bs h e = unfold steps finish in ground arith
  peel p (n ∷ rest) bs h e =
      let (q, s, others) = run-step p n rest bs e in (n, rest, q, refl, s, others)

  -- The message that a value adds.
  after_take_value :
      (done : List MessageBatch) (ms : List Message) (id : Bytes) (n : Node) {q : Parser}
      → take_value parse_payload
          (record { state = wants_value; id = some id; res = done ++ batch ms ∷ [] })
          n.value
        ≡ ok q
      → (w : RedisWireMessage) × (m : Message) × (parse_payload n.value ≡ ok w)
        × (to_message w id ≡ ok m)
        × (q ≡ between done (ms ++ m ∷ []))
  unfolding take_value
  after_take_value done ms id n {q} e =
      let (w, parsed, e1) = >>=-eq-ok (parse_payload n.value) _ e in
      let (m, converted, e2) = >>=-eq-ok (to_message w id) _ e1 in
      (w, m, parsed, converted, ground (arith, push_message_lem done ms m, e2))

  glue :
      {x : Node} {nodes r1 r2 r3 r4 : List Node} {n1 n2 n3 n4 m1 m2 m3 m4 : Node}
      → nodes ≡ n1 ∷ r1
      → n1 ≡ m1
      → r1 ≡ n2 ∷ r2
      → n2 ≡ m2
      → r2 ≡ n3 ∷ r3
      → n3 ≡ m3
      → r3 ≡ n4 ∷ r4
      → n4 ≡ m4
      → x ∷ nodes ≡ x ∷ m1 ∷ m2 ∷ m3 ∷ m4 ∷ r4
  glue c1 f1 c2 f2 c3 f3 c4 f4 = cc

  -- Once an entry has begun, its other four nodes must follow.
  entry_sound :
      (done : List MessageBatch) (ms : List Message) (nodes : List Node) (text : Bytes)
      (bs : List MessageBatch)
      → run (record (between done ms) { state = wants_id }) nodes ≡ ok bs
      → (e : Entry) × (m : Message) × (rest : List Node) × (node array 2 1 text ∷ nodes
          ≡ entry_nodes e rest)
        × Reads parse_payload e m
        × (run (between done (ms ++ m ∷ [])) rest ≡ ok bs)
  unfolding entry_nodes
  entry_sound done ms nodes text bs e =
      let (n1, r1, q1, c1, s1, e1) =
        peel (record (between done ms) { state = wants_id }) nodes bs refl e in
      let (f1, g1) = after_id parse_payload _ n1 s1 in
      let a1 : run
            (record { state = wants_attr_list; id = some n1.value; res = done ++ batch ms ∷ [] }) r1
          ≡ ok bs =
        rw g1 at e1 in
      let (n2, r2, q2, c2, s2, e2) = peel _ r1 bs refl a1 in
      let (f2, g2) = after_attr_list parse_payload _ n2 s2 in
      let a2 : run (record { state = wants_key; id = some n1.value; res = done ++ batch ms ∷ [] })
            r2
          ≡ ok bs =
        rw g2 at e2 in
      let (n3, r3, q3, c3, s3, e3) = peel _ r2 bs refl a2 in
      let (f3, g3) = after_key parse_payload _ n3 s3 in
      let a3 : run (record { state = wants_value; id = some n1.value; res = done ++ batch ms ∷ [] })
            r3
          ≡ ok bs =
        rw g3 at e3 in
      let (n4, r4, q4, c4, s4, e4) = peel _ r3 bs refl a3 in
      let (f4, g4) = after_value parse_payload _ n4 s4 in
      let (w, m, parsed, converted, g5) = after_take_value done ms n1.value n4 g4 in
      let entry : Entry = record {
        id = n1.value;
        payload = n4.value;
        id_size = n1.aggregate_size;
        key_size = n3.aggregate_size;
        payload_size = n4.aggregate_size;
        entry_text = text;
        list_text = n2.value;
      } in
      (
        entry,
        m,
        r4,
        glue c1 f1 c2 f2 c3 f3 c4 f4,
        record { wire = w; parsed = parsed; converted = converted },
        rw g5 at e4,
      )

  -- What is left of a run between two entries: more entries of the current response, then more
  -- responses.
  abbrev Rest : List MessageBatch → List Message → List Node → List MessageBatch → Type 0
  Rest done ms nodes bs =
      (es : List Entry) × (new : List Message) × (rs : List Response) × (more : List MessageBatch)
      × (nodes ≡ entries_nodes es (nodes_of rs))
      × ReadsAll parse_payload es new
      × Batches parse_payload rs more
      × (bs ≡ done ++ batch (ms ++ new) ∷ more)

  Rest-sound :
      (fuel : ℕ) (nodes : List Node) (done : List MessageBatch) (ms : List Message)
      (bs : List MessageBatch)
      → length nodes < fuel
      → run (between done ms) nodes ≡ ok bs
      → Rest done ms nodes bs
  unfolding entries_nodes nodes_of
  Rest-sound zero nodes done ms bs h e = absurd (omega arith)
  Rest-sound (suc fuel) [] done ms bs h e = (
    [],
    [],
    [],
    [],
    refl,
    Grammar.ReadsAll.nil,
    Grammar.Batches.nil,
    unfold steps finish in cc (e, append-nil ms),
  )
  Rest-sound (suc fuel) (n ∷ nodes) done ms bs h e =
      let (q, s, e1) = run-step (between done ms) n nodes bs e in
      elim (after_between parse_payload (between done ms) n s) [
        | inl (f, g) ↦
            let (es, new, rs, more, split, reads, batches, same) =
              Rest-sound fuel nodes (done ++ batch ms ∷ []) [] bs (omega arith) (rw g at e1) in
            let r : Response = record { entries = es; size = n.aggregate_size; text = n.value } in
            (
              [],
              [],
              r ∷ rs,
              batch new ∷ more,
              ap (λ k. k ∷ nodes) f ∙ ap (◌∷◌ (node array n.aggregate_size 0 n.value)) split,
              Grammar.ReadsAll.nil,
              Grammar.Batches.cons reads batches,
              cc (same, append-nil ms, append_assoc done (batch ms ∷ []) (batch new ∷ more)),
            )
        | inr (f, g) ↦
            let (x, m, rest, shape, read, e2) = entry_sound done ms nodes n.value bs (rw g at e1) in
            let (es, new, rs, more, split, reads, batches, same) =
              Rest-sound fuel rest done (ms ++ m ∷ []) bs (omega (arith, ap length shape)) e2 in
            (
              x ∷ es,
              m ∷ new,
              rs,
              more,
              ap (λ k. k ∷ nodes) f ∙ shape ∙ ap (entry_nodes x) split,
              Grammar.ReadsAll.cons read reads,
              batches,
              same ∙ ap (λ l. done ++ batch l ∷ more) (append_assoc ms (m ∷ []) new),
            )
      ]

  -- Whatever parse_room_history_batch accepts is a sequence of well-formed responses, and what it
  -- returns is what they stand for.
  pub parse_room_history_batch_sound :
      (nodes : List Node) (bs : List MessageBatch)
      → parse_room_history_batch parse_payload nodes ≡ ok bs
      → (rs : List Response) × (nodes ≡ nodes_of rs) × Batches parse_payload rs bs
  unfolding parse_room_history_batch nodes_of
  parse_room_history_batch_sound [] bs e =
      ([], refl, unfold steps finish in subst (Batches parse_payload []) (cc e) Grammar.Batches.nil)
  parse_room_history_batch_sound (n ∷ nodes) bs e =
      let (q, s, e1) = run-step init n nodes bs e in
      let (f, g) = after_start parse_payload init n s in
      let (es, new, rs, more, split, reads, batches, same) =
        Rest-sound (suc (length nodes)) nodes [] [] bs (omega arith) (rw g at e1) in
      (
        record { entries = es; size = n.aggregate_size; text = n.value } ∷ rs,
        ap (λ k. k ∷ nodes) f ∙ ap (◌∷◌ (node array n.aggregate_size 0 n.value)) split,
        subst (Batches parse_payload _) (sym same) (Grammar.Batches.cons reads batches),
      )
