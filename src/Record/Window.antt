-- ===== src/Record/Window.antt =====
-- What a window shows of the parts of a file.
use cyber_rt_standalone_r.Prelude.{
  ℕ, suc, ◌+◌, ◌≡◌, ◌≤◌, ◌<◌, inl, inr, refl, sym, ap, ◌∙◌, List, [], ◌∷◌, ◌++◌, Bool, true, ◌&&◌,
  not, if◌then◌else◌, ltb, length, arith, Bool-cases,
}
use cyber_rt_standalone_r.Record.{SingleMessage, ChunkBody}
use cyber_rt_standalone_r.Record.Writer.{Step, put_channel, put_message, flush_pass}
use cyber_rt_standalone_r.Record.Read.{Part, channel_part, chunk_part, Within}
use cyber_rt_standalone_r.Record.Plan.{bodies, messages_put, count}
use cyber_rt_standalone_r.Record.Messages.{since, visible}
use cyber_rt_standalone_r.Record.Timely.{AreTimely}

module _ (b : ℕ) where
  since-append : (xs ys : ChunkBody) → since b (xs ++ ys) ≡ since b xs ++ since b ys
  since-append [] ys = refl
  since-append (m ∷ ms) ys = elim (Bool-cases (ltb m.time b)) [
    | inl k ↦ rw k (since-append ms ys)
    | inr k ↦ rw k (ap (◌∷◌ m) (since-append ms ys))
  ]

  -- A chunk that ends before the window.
  since_none : (e : ℕ) (ms : ChunkBody) → Within e ms → e < b → since b ms ≡ []
  since_none e [] w l = refl
  since_none e (m ∷ ms) (h, w) l =
      let k : ltb m.time b ≡ true = ground (arith, h, l) in rw k (since_none e ms w l)

  pub visible-bodies :
      (e : ℕ) (xs : List Part) → AreTimely e xs → visible b xs ≡ since b (bodies xs)
  visible-bodies e [] t = refl
  visible-bodies e (channel_part c ∷ xs) (u, t) = visible-bodies e xs t
  visible-bodies e (chunk_part h c ∷ xs) ((l, w, v), t) = elim (Bool-cases (ltb h.end_time b)) [
    | inl k ↦
        rw (k, since-append c (bodies xs), since_none h.end_time c v (ground (arith, k)))
          (visible-bodies e xs t)
    | inr k ↦ rw (k, since-append c (bodies xs)) (ap (λ y. since b c ++ y) (visible-bodies e xs t))
  ]

  count-since :
      (f : SingleMessage → Bool) (ms : ChunkBody)
      → count f (since b ms) ≡ count (λ m. not (ltb m.time b) && f m) ms
  count-since f [] = refl
  count-since f (m ∷ ms) = elim (Bool-cases (ltb m.time b)) [
    | inl k ↦ rw k (omega (arith, count-since f ms))
    | inr k ↦ rw k (ap (λ n. (if f m then 1 else 0) + n) (count-since f ms))
  ]

  -- The same messages in another order.
  pub count-since_of :
      (ms ns : ChunkBody)
      → ((f : SingleMessage → Bool) → count f ms ≡ count f ns)
      → (f : SingleMessage → Bool) → count f (since b ms) ≡ count f (since b ns)
  count-since_of ms ns h f =
      count-since f ms ∙ (h (λ m. not (ltb m.time b) && f m) ∙ sym (count-since f ns))

  length-since : (ms : ChunkBody) → length (since b ms) ≤ count (λ m. true) ms
  length-since [] = omega arith
  length-since (m ∷ ms) = elim (Bool-cases (ltb m.time b)) [
    | inl k ↦ rw k (omega (arith, length-since ms))
    | inr k ↦ rw k (omega (arith, length-since ms))
  ]

count-messages_put : (xs : List Step) → count (λ m. true) (messages_put xs) ≤ length xs
count-messages_put [] = omega arith
count-messages_put (put_channel c ∷ xs) = omega (arith, count-messages_put xs)
count-messages_put (put_message m ∷ xs) = omega (arith, count-messages_put xs)
count-messages_put (flush_pass ∷ xs) = omega (arith, count-messages_put xs)

-- There are fewer messages than steps.
pub length-since_of :
    (b : ℕ) (ms : ChunkBody) (xs : List Step)
    → ((f : SingleMessage → Bool) → count f ms ≡ count f (messages_put xs))
    → length (since b ms) < suc (length xs)
length-since_of b ms xs h = omega (arith, length-since b ms, h (λ m. true), count-messages_put xs)
