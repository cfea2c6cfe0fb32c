-- ===== src/Limits/CodeStore/Once.antt =====
-- `Set` and `GetDel` of code_store.go, with other calls in between.
use open_git.Base.{
  ℕ, ◌+◌, ◌≡◌, ◌≤◌, refl, ◌∙◌, subst, false, List, [], ◌∷◌, Bytes, bytes_eq, bytes_eq_iff,
  bytes_eq_refl, ltb, none, some, Option-cases, if◌then◌else◌, arith, All, Bool-cases, inl, inr,
}
use open_git.Limits.CodeStore.{Item, Items, Call, set_call, get_del_call, set, get_del, run_calls}

-- A call about another key, no later than a time.
abbrev pub IsOther : Bytes → ℕ → Call → Type 0
IsOther key t (set_call now k value ttl) = (bytes_eq key k ≡ false) × (now ≤ t)
IsOther key t (get_del_call now k) = (bytes_eq key k ≡ false) × (now ≤ t)

-- A call that does not set the key.
abbrev pub SetsOther : Bytes → Call → Type 0
SetsOther key (set_call now k value ttl) = bytes_eq key k ≡ false
SetsOther key (get_del_call now k) = Unit

get_del-other :
    (now : ℕ) (key k : Bytes) (items : Items)
    → bytes_eq key k ≡ false
    → (get_del now k items).1 key ≡ items key
unfolding get_del
get_del-other now key k items other = elim (Option-cases (items k)) [
  | inl e ↦ rw (e, get_del) refl
  | inr (item, e) ↦ rw (e, get_del, other) refl
]

get_del-same : (now : ℕ) (key : Bytes) (items : Items) → (get_del now key items).1 key ≡ none
unfolding get_del
get_del-same now key items = elim (Option-cases (items key)) [
  | inl e ↦ rw (e, get_del) e
  | inr (item, e) ↦ rw (e, get_del, bytes_eq_refl key) refl
]

kept :
    (calls : List Call) (key : Bytes) (item : Item) (items : Items)
    → items key ≡ some item
    → All (IsOther key item.expires_at) calls
    → run_calls calls items key ≡ some item
unfolding run_calls set
kept [] key item items present h = present
kept (set_call now k value ttl ∷ calls) key item items present h =
    kept calls key item _ (rw (h.0.0, present) (ground (arith, h.0.1))) h.1
kept (get_del_call now k ∷ calls) key item items present h =
    kept calls key item _ (get_del-other now key k items h.0.0 ∙ present) h.1

gone :
    (calls : List Call) (key : Bytes) (items : Items)
    → items key ≡ none
    → All (SetsOther key) calls
    → run_calls calls items key ≡ none
unfolding run_calls set
gone [] key items absent h = absent
gone (set_call now k value ttl ∷ calls) key items absent h =
    gone calls key _ (rw (h.0, absent) refl) h.1
gone (get_del_call now k ∷ calls) key items absent h =
    gone calls key _
      (elim (Bool-cases (bytes_eq key k)) [
        | inl e ↦
            subst (λ z. (get_del now z items).1 key ≡ none) ((bytes_eq_iff key k).0 e)
              (get_del-same now key items)
        | inr e ↦ get_del-other now key k items e ∙ absent
      ])
      h.1

-- A value that was set is answered up to the end of its time, if the calls in between, none of
-- them later than that, are about other keys. After that end the answer is the empty text.
pub get_del-set :
    (items : Items) (key value : Bytes) (now ttl later : ℕ) (calls : List Call)
    → All (IsOther key (now + ttl)) calls
    → (get_del later key (run_calls calls (set now key value ttl items))).0
      ≡ (if ltb (now + ttl) later then [] else value)
unfolding get_del set
get_del-set items key value now ttl later calls h =
    let item : Item = record { value = value; expires_at = now + ttl } in
    rw
      (
        kept calls key item (set now key value ttl items) (rw (bytes_eq_refl key, set) refl) h,
        get_del,
      )
      refl

-- A value is answered at most once: after `GetDel`, and calls of which none sets the key, the
-- answer is the empty text.
pub get_del-once :
    (items : Items) (key : Bytes) (now later : ℕ) (calls : List Call)
    → All (SetsOther key) calls
    → (get_del later key (run_calls calls (get_del now key items).1)).0 ≡ []
unfolding get_del
get_del-once items key now later calls h =
    rw (gone calls key (get_del now key items).1 (get_del-same now key items) h, get_del) refl
