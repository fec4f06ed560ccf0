-- ===== src/Data/Buffer/History.antt =====
-- A buffer against the list of all messages ever stored in it, oldest first.
use cyber_rt_standalone_r.Prelude.{
  ℕ, ◌+◌, ◌-◌, ◌%◌, ◌^◌, ◌≤◌, ◌<◌, ◌≡◌, refl, sym, ap, ◌∙◌, ◌≢◌, ◌∷◌, [], List, ◌++◌, some, none,
  inl, inr, Bool-cases, arith, ==_iff, add_u64, sub_u64, get_or, set, length, length-set,
  length-append, length-replicate, get_or-set_self, get_or-set_ne, get_or-append_left,
  get_or-append_length, mod-ne_of_near, mod-eq_of_add,
}
use native.Mathlib.Decide.{ℕ_discrete}
use cyber_rt_standalone_r.Data.Buffer.{
  CacheBuffer, init, full, get_index, store, fill, set_fusion_callback,
}

pub capacity-init {ℓ κ} :
    (W : Type κ) {T : Type ℓ} (d : T) (n : ℕ) → (init {W = W} d n).capacity ≡ add_u64 n 1
unfolding init
capacity-init W d n = refl

module _ {ℓ κ} {W : Type κ} {T : Type ℓ} where
  pub fusion_callback-init : (d : T) (n : ℕ) → (init {W = W} d n).fusion_callback ≡ none
  unfolding init
  fusion_callback-init d n = refl

  pub set_fusion_callback_lem :
      (b : CacheBuffer W T) (callback : T → W → W)
      → (set_fusion_callback b callback).fusion_callback ≡ some callback
  unfolding set_fusion_callback
  set_fusion_callback_lem b callback = refl

  pub fusion_callback-store :
      (b : CacheBuffer W T) (v : T) → (store b v).fusion_callback ≡ b.fusion_callback
  unfolding store
  fusion_callback-store b v = elim (Bool-cases (full b)) [ inl e ↦ rw e | inr e ↦ rw e ]

  -- `Fill` stores the value, unless a fusion callback takes it.
  pub fill_plain :
      (b : CacheBuffer W T) (v : T) (w : W) → b.fusion_callback ≡ none → fill b v w ≡ (store b v, w)
  unfolding fill
  fill_plain b v w e = rw e

  pub fill_fused :
      (b : CacheBuffer W T) (v : T) (w : W) (callback : T → W → W)
      → b.fusion_callback ≡ some callback
      → fill b v w ≡ (b, callback v w)
  unfolding fill
  fill_fused b v w callback e = rw e

module _ {ℓ κ} {W : Type κ} {T : Type ℓ} (default : T) where
  -- `b` is a buffer for `n` messages into which exactly `hist` was stored: the counters tell how
  -- many messages came, and position p still in the ring holds the p-th of them.
  pub record Holds (n : ℕ) (b : CacheBuffer W T) (hist : List T) : Type ℓ where
    pub small : length hist + 2 < 2 ^ 64
    pub narrow : n + 1 < 2 ^ 64
    pub sized : b.capacity ≡ n + 1
    pub storage : length b.buffer ≡ n + 1
    pub counted : b.tail ≡ length hist
    pub dropped : b.head ≡ length hist - n
    pub kept :
        (p : ℕ)
        → b.head < p
        → p ≤ b.tail
        → get_or b.buffer (p % (n + 1)) default ≡ get_or hist (p - 1) default

  pub init-Holds : (n : ℕ) → n + 1 < 2 ^ 64 → Holds n (init default n) []
  unfolding init
  init-Holds n h = record {
    small = omega arith;
    narrow = h;
    sized = omega arith;
    storage = omega (arith, length-replicate ((n + 1) % 2 ^ 64) default);
    counted = refl;
    dropped = omega arith;
    kept = λ p a c. absurd (omega arith);
  }

  -- The slot that `store` writes is that of the new position, and all others in the ring differ.
  kept-set :
      (n : ℕ) (b : CacheBuffer W T) (hist : List T) (v : T) (i : ℕ)
      → Holds n b hist
      → i ≡ (length hist + 1) % (n + 1)
      → (p : ℕ) → length hist + 1 - n < p
      → p ≤ length hist + 1
      → get_or (set b.buffer i v) (p % (n + 1)) default ≡ get_or (hist ++ v ∷ []) (p - 1) default
  kept-set n b hist v i h e p lo hi = elim (ℕ_discrete p (length hist + 1)) [
    | yes new ↦
        let at_new : get_or (set b.buffer i v) i default ≡ v =
          get_or-set_self b.buffer i v default (omega (arith, h.storage)) in
        rw (new, ← e, at_new)
          (sym (get_or-append_length hist v (length hist + 1 - 1) default (omega arith)))
    | no old ↦
        rw
          (
            get_or-set_ne b.buffer i (p % (n + 1)) v default (λ same.
                mod-ne_of_near p (length hist + 1) (n + 1) (omega arith) (omega arith)
                  (sym (sym e ∙ same))),
            get_or-append_left hist (v ∷ []) (p - 1) default (omega arith),
          )
          (h.kept p (omega (arith, h.dropped)) (omega (arith, h.counted)))
  ]

  written-Holds :
      (n : ℕ) (b : CacheBuffer W T) (hist : List T) (v : T) (i new_head : ℕ)
      → Holds n b hist
      → length hist + 3 < 2 ^ 64
      → i ≡ (length hist + 1) % (n + 1)
      → new_head ≡ length hist + 1 - n
      → Holds n
          (record b { buffer = set b.buffer i v; head = new_head; tail = add_u64 b.tail 1 })
          (hist ++ v ∷ [])
  written-Holds n b hist v i new_head h room e d = record {
    small = omega (arith, length-append hist (v ∷ []));
    narrow = h.narrow;
    sized = h.sized;
    storage = length-set b.buffer i v ∙ h.storage;
    counted = omega (arith, length-append hist (v ∷ []));
    dropped = omega (arith, length-append hist (v ∷ []));
    kept = λ p lo hi. kept-set n b hist v i h e p (omega arith) (omega (arith, h.counted));
  }

  -- Storing one message appends it to the history.
  pub store-Holds :
      (n : ℕ) (b : CacheBuffer W T) (hist : List T) (v : T)
      → Holds n b hist
      → length hist + 3 < 2 ^ 64
      → Holds n (store b v) (hist ++ v ∷ [])
  unfolding store
  store-Holds n b hist v h room = elim (Bool-cases (full b)) [
    | inl yes_full ↦
        let used : sub_u64 b.capacity 1 ≡ sub_u64 b.tail b.head = (==_iff _ _).0 yes_full in
        rw yes_full (
          written-Holds n b hist v (get_index b b.head) (add_u64 b.head 1) h room
            (rw h.sized (sym (mod-eq_of_add b.head (length hist + 1) (n + 1) (omega arith))))
            (omega arith))
    | inr not_full ↦
        let used : sub_u64 b.capacity 1 ≢ sub_u64 b.tail b.head =
          λ same. cc (not_full, (==_iff _ _).1 same) in
        rw not_full (
          written-Holds n b hist v (get_index b (add_u64 b.tail 1)) b.head h room
            (rw (h.sized, h.counted) (ap (λ (k : ℕ). k % (n + 1)) (omega arith))) (omega arith))
  ]
