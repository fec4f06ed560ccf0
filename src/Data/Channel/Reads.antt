-- ===== src/Data/Channel/Reads.antt =====
-- What a read returns, in terms of the messages that came into the buffer.
use cyber_rt_standalone_r.Prelude.{
  ℕ, zero, suc, ◌+◌, ◌-◌, ◌≤◌, ◌<◌, ◌≡◌, sym, ap, List, [], ◌∷◌, Option, some, none, ◌∙◌, add_u64,
  sub_u64, arith, ltb, ◌==◌, if◌then◌else◌, get_or, length, get_last?, get_last?-eq-get_or, drop,
  drop-length, drop-cons, min,
}
use cyber_rt_standalone_r.Data.Buffer.{CacheBuffer, at, size}
use cyber_rt_standalone_r.Data.Buffer.History.{Holds}
use cyber_rt_standalone_r.Data.Channel.{fetch, latest, collect, fetch_multi}

-- The message that a reader at index `i` is owed when `count` came and the last `n` are kept: its
-- own next one, or the newest if it starts or has lost some.
unfoldable pub owed : ℕ → ℕ → ℕ → Option ℕ
owed n count i =
    if ltb (count - n) i
    then (if ltb count i then none else some i)
    else (if count == 0 then none else some count)

pub owed_bounds :
    (n count i p : ℕ)
    → owed n count i ≡ some p
    → 0 < n
    → (i ≤ p) × (0 < p) × (p ≤ count) × (count < p + n)
unfolding owed
owed_bounds n count i p e pos = ground arith

pub owed_next : (n count i : ℕ) → count < i + n → 0 < i → i ≤ count → owed n count i ≡ some i
unfolding owed
owed_next n count i a b c = ground arith

pub owed-none : (n count i : ℕ) → i ≡ count + 1 → owed n count i ≡ none
unfolding owed
owed-none n count i e = ground arith

-- A read of message `p` of the history, or of nothing.
abbrev pub delivery {ℓ} : {T : Type ℓ} → T → List T → ℕ → Option ℕ → Option T × ℕ
delivery default hist i none = (none, i)
delivery default hist i (some p) = (some (get_or hist (p - 1) default), p)

module _ {W T : Type 0} (default : T) (n : ℕ) where
  -- `Fetch` on a buffer of n > 0 slots, at an index that is at most one past the newest message,
  -- returns the message that is owed and its position, or nothing and the index.
  pub fetch_lem :
      (b : CacheBuffer W T) (hist : List T) (i : ℕ)
      → Holds default n b hist
      → 0 < n
      → i ≤ length hist + 1
      → fetch default b i ≡ delivery default hist i (owed n (length hist) i)
  unfolding fetch owed
  fetch_lem b hist i h pos reach =
      ground (arith, h.counted, h.small, h.dropped, h.sized, h.kept i, h.kept b.tail)

  -- `Latest` returns the message that came last, if any came.
  pub latest_lem :
      (b : CacheBuffer W T) (hist : List T)
      → Holds default n b hist
      → 0 < n
      → latest default b ≡ get_last? hist
  unfolding latest
  latest_lem b [] h pos = rw h.counted
  latest_lem b (x ∷ xs) h pos = ground (
    arith,
    h.counted,
    h.dropped,
    h.sized,
    h.kept b.tail,
    get_last?-eq-get_or (x ∷ xs) (length xs) default,
  )

  collect_step :
      (b : CacheBuffer W T) (k p q : ℕ)
      → p ≤ b.tail
      → q ≡ add_u64 p 1
      → collect default (suc k) b p ≡ at default b p ∷ collect default k b q
  unfolding collect
  collect_step b k p q h e = ground arith

  collect_stop : (b : CacheBuffer W T) (k p : ℕ) → b.tail < p → collect default (suc k) b p ≡ []
  unfolding collect
  collect_stop b k p h = ground arith

  collect_lem :
      (b : CacheBuffer W T) (hist : List T) (k p : ℕ)
      → Holds default n b hist
      → length hist ≤ p + n
      → p + k ≡ length hist
      → collect default (suc k) b (p + 1) ≡ drop p hist
  collect_lem b hist zero p h lo e =
      collect_stop b 0 (p + 1) (omega (arith, h.counted)) ∙ sym (drop-length hist p (omega arith))
  collect_lem b hist (suc k) p h lo e = ground (
    arith,
    h.counted,
    h.small,
    h.dropped,
    h.sized,
    h.kept (p + 1),
    collect_step b (suc k) (p + 1) (suc p + 1),
    collect_lem b hist k (suc p) h,
    drop-cons hist p default,
  )

  -- `FetchMulti` on a buffer that got at least one message returns the newest of them, oldest first:
  -- as many as were asked for, as the buffer keeps and as came, whichever is least.
  pub fetch_multi_lem :
      (b : CacheBuffer W T) (hist : List T) (fetch_size : ℕ)
      → Holds default n b hist
      → 0 < length hist
      → fetch_multi default b fetch_size
        ≡ some (drop (length hist - min (min n (length hist)) fetch_size) hist)
  unfolding fetch_multi
  fetch_multi_lem b hist fetch_size h some_in = ground (
    arith,
    h.counted,
    h.small,
    h.dropped,
    ap (λ p. collect default (suc (min (size b) fetch_size)) b p) start,
    collect_lem b hist (min (size b) fetch_size) (length hist - min (size b) fetch_size) h,
  )
    where
      start :
          add_u64 (sub_u64 b.tail (min (size b) fetch_size)) 1
          ≡ length hist - min (size b) fetch_size + 1
      start = omega (arith, h.counted, h.small, h.dropped)
