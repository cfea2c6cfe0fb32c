-- ===== src/Limits/CodeStore.antt =====
-- `InMemoryTTLStore` of backend/internal/infrastructure/kvstore/code_store.go, which holds the
-- authorization codes of OAuth.
use open_git.Base.{
  ℕ, ◌+◌, ◌≡◌, ◌≤◌, ◌<◌, refl, Bool, true, false, List, [], ◌∷◌, Bytes, bytes_eq, bytes_eq_refl,
  ltb, leb, Option, none, some, if◌then◌else◌, arith,
}
pub mod Once

pub record Item : Type 0 where
  pub value : Bytes
  pub expires_at : ℕ

-- `map[string]inMemoryItem`
abbrev pub Items : Type 0
Items = Bytes → Option Item

abbrev pub drop_expired : ℕ → Option Item → Option Item
drop_expired now none = none
drop_expired now (some item) = if ltb item.expires_at now then none else some item

unfoldable pub set : ℕ → Bytes → Bytes → ℕ → Items → Items
set now key value ttl items k =
    if bytes_eq k key
    then some (record { value = value; expires_at = now + ttl })
    else drop_expired now (items k)

-- The answer, and the items left. The empty text answers for a missing or an expired value.
unfoldable pub get_del : ℕ → Bytes → Items → Bytes × Items
get_del now key items = elim (items key) [
  | none ↦ ([], items)
  | some item ↦
      let rest : Items = λ k. if bytes_eq k key then none else items k in
      (if ltb item.expires_at now then [] else item.value, rest)
]

-- The calls on a store, in the order of the lock, each with the time at which it holds it.
pub data Call : Type 0 where
  set_call : ℕ → Bytes → Bytes → ℕ → Call
  get_del_call : ℕ → Bytes → Call

unfoldable pub run_calls : List Call → Items → Items
run_calls [] items = items
run_calls (set_call now key value ttl ∷ calls) items = run_calls calls (set now key value ttl items)
run_calls (get_del_call now key ∷ calls) items = run_calls calls (get_del now key items).1
