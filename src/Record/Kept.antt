-- ===== src/Record/Kept.antt =====
-- No message is lost on its way through the two chunks, and none is written twice.
use cyber_rt_standalone_r.Prelude.{
  ℕ, suc, ◌+◌, ◌≡◌, ◌≤◌, ◌<◌, ◌^◌, refl, sym, ap, subst, List, [], ◌∷◌, ◌++◌, Bool, true, false,
  if◌then◌else◌, length, length-append, arith,
}
use mathlib.Core.List.{append-nil}
use cyber_rt_standalone_r.Record.{SingleMessage, Header, ChunkBody}
use cyber_rt_standalone_r.Record.Writer.{
  Chunk, add_message, is_empty_chunk, need_flush, Step, put_channel, put_message, flush_pass,
}
use cyber_rt_standalone_r.Record.Read.{channel_part, chunk_part}
use cyber_rt_standalone_r.Record.Plan.{
  Plan, begun, exchange, plan_flushed, plan_flush, plan_step, plan_all, plan_close, parts_of,
  bodies, messages_put, count, count-append, bodies-append,
}

-- How often messages of a kind stand in the file and in the two chunks.
abbrev pub held : (SingleMessage → Bool) → Plan → ℕ
held f p = count f (bodies p.parts) + (count f p.waiting.body + count f p.active.body)

-- Every chunk's header counts its messages.
abbrev pub Counts : ℕ → Chunk → Type 0
Counts n c = (c.header.message_number ≡ length c.body) × (length c.body ≤ n)

nil_of : (b : ChunkBody) → length b ≡ 0 → b ≡ []
nil_of [] h = refl
nil_of (m ∷ ms) h = absurd (omega (arith, h))

pub empty_body : (n : ℕ) (c : Chunk) → Counts n c → is_empty_chunk c ≡ true → c.body ≡ []
empty_body n c (e, l) h = nil_of c.body (ground (arith, e, h))

pub add_message-Counts :
    (n : ℕ) (c : Chunk) (m : SingleMessage)
    → Counts n c
    → suc n < 2 ^ 64
    → Counts (suc n) (add_message c m)
add_message-Counts n c m (e, l) h = (
  omega (arith, e, l, h, length-append c.body (m ∷ [])),
  omega (arith, l, length-append c.body (m ∷ [])),
)

-- An empty waiting chunk is left by a flush.
pub waiting_empty :
    (b : Bool) (n : ℕ) (p : Plan)
    → Counts n p.waiting
    → b ≡ is_empty_chunk p.waiting
    → (plan_flushed b p).waiting.body ≡ []
waiting_empty true n p c e = empty_body n p.waiting c (sym e)
waiting_empty false n p c e = refl

pub active-plan_flushed : (b : Bool) (p : Plan) → (plan_flushed b p).active ≡ p.active
active-plan_flushed true p = refl
active-plan_flushed false p = refl

module _ (f : SingleMessage → Bool) where
  -- After some steps: how many messages of a kind are held, and that chunks are counted.
  pub record IsPlan (k n : ℕ) (p : Plan) : Type 0 where
    pub kept : held f p ≡ k
    pub active : Counts n p.active
    pub waiting : Counts n p.waiting

  flushed-IsPlan : (b : Bool) (k n : ℕ) (p : Plan) → IsPlan k n p → IsPlan k n (plan_flushed b p)
  flushed-IsPlan true k n p i = i
  flushed-IsPlan false k n p i = record {
    kept = omega (
      arith,
      i.kept,
      ap (count f) (bodies-append p.parts (chunk_part p.waiting.header p.waiting.body ∷ [])),
      count-append f (bodies p.parts) (p.waiting.body ++ []),
      count-append f p.waiting.body [],
    );
    active = i.active;
    waiting = (refl, omega arith);
  }

  pub flush-IsPlan : (k n : ℕ) (p : Plan) → IsPlan k n p → IsPlan k n (plan_flush p)
  flush-IsPlan k n p i = flushed-IsPlan (is_empty_chunk p.waiting) k n p i

  pub exchange-IsPlan : (k n : ℕ) (p : Plan) → IsPlan k n p → IsPlan k n (exchange p)
  exchange-IsPlan k n p i = record {
    kept = omega (arith, i.kept);
    active = i.waiting;
    waiting = i.active;
  }

  later : (n : ℕ) (c : Chunk) → Counts n c → Counts (suc n) c
  later n c (e, l) = (e, omega (arith, l))

  added-IsPlan :
      (k n : ℕ) (m : SingleMessage) (p : Plan)
      → IsPlan k n p
      → suc n < 2 ^ 64
      → IsPlan (k + count f (m ∷ [])) (suc n) (record p { active = add_message p.active m })
  added-IsPlan k n m p i h = record {
    kept = omega (arith, i.kept, count-append f p.active.body (m ∷ []));
    active = add_message-Counts n p.active m i.active h;
    waiting = later n p.waiting i.waiting;
  }

  if-IsPlan :
      (b : Bool) (k n : ℕ) (p q : Plan)
      → IsPlan k n p
      → IsPlan k n q
      → IsPlan k n (if b then p else q)
  if-IsPlan true k n p q i j = i
  if-IsPlan false k n p q i j = j

  pub step-IsPlan :
      (h : Header) (x : Step) (k n : ℕ) (p : Plan)
      → IsPlan k n p
      → suc n < 2 ^ 64
      → IsPlan (k + count f (messages_put (x ∷ []))) (suc n) (plan_step h x p)
  step-IsPlan h (put_channel c) k n p i l = record {
    kept = omega (
      arith,
      i.kept,
      ap (count f) (bodies-append p.parts (channel_part c ∷ [])),
      ap (count f) (append-nil (bodies p.parts)),
    );
    active = later n p.active i.active;
    waiting = later n p.waiting i.waiting;
  }
  step-IsPlan h (put_message m) k n p i l =
      let j = added-IsPlan k n m p i l in
      let q = record p { active = add_message p.active m } in
      if-IsPlan (need_flush h q.active.header m) (k + count f (m ∷ [])) (suc n) (exchange q) q
        (exchange-IsPlan (k + count f (m ∷ [])) (suc n) q j) j
  step-IsPlan h flush_pass k n p i l =
      let j = flush-IsPlan k n p i in
      record {
        kept = omega (arith, j.kept);
        active = later n (plan_flush p).active j.active;
        waiting = later n (plan_flush p).waiting j.waiting;
      }

  count-messages_put :
      (x : Step) (xs : List Step)
      → count f (messages_put (x ∷ xs))
        ≡ count f (messages_put (x ∷ [])) + count f (messages_put xs)
  count-messages_put (put_channel c) xs = omega arith
  count-messages_put (put_message m) xs = omega arith
  count-messages_put flush_pass xs = omega arith

  pub all-IsPlan :
      (h : Header) (xs : List Step) (k n : ℕ) (p : Plan)
      → IsPlan k n p
      → n + length xs < 2 ^ 64
      → (n' : ℕ) × IsPlan (k + count f (messages_put xs)) n' (plan_all h xs p)
  all-IsPlan h [] k n p i l = let e : k ≡ k + 0 = omega arith in (n, subst (λ z. IsPlan z n p) e i)
  all-IsPlan h (x ∷ xs) k n p i l =
      let c = count f (messages_put (x ∷ [])) in
      let (n', j) =
        all-IsPlan h xs (k + c) (suc n) (plan_step h x p)
          (step-IsPlan h x k n p i (omega (arith, l))) (omega (arith, l)) in
      let e : k + c + count f (messages_put xs) ≡ k + count f (messages_put (x ∷ xs)) =
        omega (arith, count-messages_put x xs) in
      (n', subst (λ z. IsPlan z n' (plan_all h (x ∷ xs) p)) e j)

  close-count : (k n : ℕ) (p : Plan) → IsPlan k n p → count f (bodies (plan_close p).parts) ≡ k
  close-count k n p i =
      let q = plan_flush p in
      let j = exchange-IsPlan k n q (flush-IsPlan k n p i) in
      let z = flush-IsPlan k n (exchange q) j in
      let e = waiting_empty (is_empty_chunk p.waiting) n p i.waiting refl in
      let e' = waiting_empty (is_empty_chunk (exchange q).waiting) n (exchange q) j.waiting refl in
      let a = ap (count f) e in
      let b = ap (count f) e' in
      let c =
        ap (λ y. count f y.body)
          (active-plan_flushed (is_empty_chunk (exchange q).waiting) (exchange q)) in
      omega (arith, z.kept, a, b, c)

  pub begun-IsPlan : IsPlan 0 0 begun
  begun-IsPlan = record { kept = refl; active = (refl, omega arith); waiting = (refl, omega arith) }

  -- In fewer than 2^64 steps.
  pub count-parts_of :
      (h : Header) (xs : List Step)
      → length xs < 2 ^ 64
      → count f (bodies (parts_of h xs)) ≡ count f (messages_put xs)
  count-parts_of h xs l =
      let (n, i) = all-IsPlan h xs 0 0 begun begun-IsPlan (omega (arith, l)) in
      omega (
        arith,
        close-count (count f (messages_put xs)) n (plan_all h xs begun)
            (subst (λ z. IsPlan z n (plan_all h xs begun)) (omega arith) i),
      )
