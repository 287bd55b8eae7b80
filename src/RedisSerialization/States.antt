-- ===== src/RedisSerialization/States.antt =====
-- The nodes that each state of the parser takes.
use servertech_chat.Prelude.{true, Bytes, codes, some, ◌≡◌, ◌⊎◌, refl, arith, str_eq→eq}
use servertech_chat.Error.{ErrorCode, Result, ok}
use servertech_chat.RedisSerialization.Grammar.{node}
use servertech_chat.RedisSerialization.{
  RespType, array, blob_string, other, is_array, is_blob_string, Node, RedisWireMessage,
  wants_level0_list, wants_level0_or_entry_list, wants_id, wants_attr_list, wants_key, wants_value,
  Parser, new_response, take_value, step,
}

array_lem : (t : RespType) → is_array t ≡ true → t ≡ array
array_lem array h = refl
array_lem blob_string h = cc
array_lem (other n) h = cc

blob_string_lem : (t : RespType) → is_blob_string t ≡ true → t ≡ blob_string
blob_string_lem array h = cc
blob_string_lem blob_string h = refl
blob_string_lem (other n) h = cc

module _ (parse_payload : Bytes → Result ErrorCode RedisWireMessage) (p : Parser) (n : Node)
    {q : Parser} where
  -- What each state wants of its node, and the parser behind it.
  pub after_start :
      step parse_payload wants_level0_list p n ≡ ok q
      → (n ≡ node array n.aggregate_size 0 n.value) × (q ≡ new_response p)
  unfolding step
  after_start e = ground (arith, array_lem n.data_type)

  pub after_between :
      step parse_payload wants_level0_or_entry_list p n ≡ ok q
      → ((n ≡ node array n.aggregate_size 0 n.value) × (q ≡ new_response p))
        ⊎ ((n ≡ node array 2 1 n.value) × (q ≡ record p { state = wants_id }))
  unfolding step
  after_between e = ground (arith, array_lem n.data_type)

  pub after_id :
      step parse_payload wants_id p n ≡ ok q
      → (n ≡ node blob_string n.aggregate_size 2 n.value)
        × (q ≡ record p { state = wants_attr_list; id = some n.value })
  unfolding step
  after_id e = ground (arith, blob_string_lem n.data_type)

  pub after_attr_list :
      step parse_payload wants_attr_list p n ≡ ok q
      → (n ≡ node array 2 2 n.value) × (q ≡ record p { state = wants_key })
  unfolding step
  after_attr_list e = ground (arith, array_lem n.data_type)

  pub after_key :
      step parse_payload wants_key p n ≡ ok q
      → (n ≡ node blob_string n.aggregate_size 3 (codes "payload"))
        × (q ≡ record p { state = wants_value })
  unfolding step
  after_key e = ground (arith, blob_string_lem n.data_type, str_eq→eq n.value (codes "payload"))

  pub after_value :
      step parse_payload wants_value p n ≡ ok q
      → (n ≡ node blob_string n.aggregate_size 3 n.value)
        × (take_value parse_payload p n.value ≡ ok q)
  unfolding step
  after_value e = ground (arith, blob_string_lem n.data_type)
