-- ===== src/Record/Order.antt =====
-- The order of the messages in a file.
use cyber_rt_standalone_r.Prelude.{
  ℕ, suc, ◌+◌, ◌≡◌, ◌<◌, ◌^◌, refl, sym, ap, ◌∙◌, List, [], ◌∷◌, ◌++◌, Bool, true, false, ◌&&◌,
  ◌||◌, not, inl, inr, length, arith, Bool-cases,
}
use mathlib.Core.List.{append_assoc, append-nil}
use cyber_rt_standalone_r.Record.{SingleMessage, Header, ChunkBody}
use cyber_rt_standalone_r.Record.Writer.{
  Chunk, add_message, is_empty_chunk, need_flush, Step, put_channel, put_message, flush_pass,
}
use cyber_rt_standalone_r.Record.Read.{channel_part, chunk_part}
use cyber_rt_standalone_r.Record.Plan.{
  Plan, begun, exchange, plan_flushed, plan_flush, plan_step, plan_all, plan_close, parts_of,
  bodies, messages_put, bodies-append,
}
use cyber_rt_standalone_r.Record.Kept.{
  IsPlan, begun-IsPlan, step-IsPlan, all-IsPlan, flush-IsPlan, Counts, empty_body, waiting_empty,
  active-plan_flushed,
}

-- Whether the flush thread has written its chunk by the time that a step hands it the next one.
abbrev pub is_prompt_step : Header → Step → Plan → Bool
is_prompt_step h (put_message m) p =
    not (need_flush h (add_message p.active m).header m) || is_empty_chunk p.waiting
is_prompt_step h x p = true

abbrev pub is_prompt : Header → List Step → Plan → Bool
is_prompt h [] p = true
is_prompt h (x ∷ xs) p = is_prompt_step h x p && is_prompt h xs (plan_step h x p)

-- The messages in the order in which they stand.
abbrev in_order : Plan → ChunkBody
in_order p = bodies p.parts ++ (p.waiting.body ++ p.active.body)

in_order-flushed : (b : Bool) (p : Plan) → in_order (plan_flushed b p) ≡ in_order p
in_order-flushed true p = refl
in_order-flushed false p =
    ap (λ y. y ++ p.active.body)
      (bodies-append p.parts (chunk_part p.waiting.header p.waiting.body ∷ [])
        ∙ ap (λ y. bodies p.parts ++ y) (append-nil p.waiting.body))
    ∙ append_assoc (bodies p.parts) p.waiting.body p.active.body

-- An exchange with nothing waiting.
in_order-exchange : (p : Plan) → p.waiting.body ≡ [] → in_order (exchange p) ≡ in_order p
in_order-exchange p e =
    ap (λ y. bodies p.parts ++ (p.active.body ++ y)) e
    ∙ (ap (λ y. bodies p.parts ++ y) (append-nil p.active.body)
        ∙ ap (λ y. bodies p.parts ++ (y ++ p.active.body)) (sym e))

in_order-added :
    (p : Plan) (m : SingleMessage)
    → in_order (record p { active = add_message p.active m }) ≡ in_order p ++ m ∷ []
in_order-added p m =
    ap (λ y. bodies p.parts ++ y) (sym (append_assoc p.waiting.body p.active.body (m ∷ [])))
    ∙ sym (append_assoc (bodies p.parts) (p.waiting.body ++ p.active.body) (m ∷ []))

messages_put-cons :
    (x : Step) (xs : List Step) → messages_put (x ∷ xs) ≡ messages_put (x ∷ []) ++ messages_put xs
messages_put-cons (put_channel c) xs = refl
messages_put-cons (put_message m) xs = refl
messages_put-cons flush_pass xs = refl

in_order-step :
    (h : Header) (x : Step) (n : ℕ) (p : Plan)
    → Counts n p.waiting
    → is_prompt_step h x p ≡ true
    → in_order (plan_step h x p) ≡ in_order p ++ messages_put (x ∷ [])
in_order-step h (put_channel c) n p w q =
    ap (λ y. y ++ (p.waiting.body ++ p.active.body))
      (bodies-append p.parts (channel_part c ∷ []) ∙ append-nil (bodies p.parts))
    ∙ sym (append-nil (in_order p))
in_order-step h (put_message m) n p w q =
    let a = add_message p.active m in
    elim (Bool-cases (need_flush h a.header m)) [
      | inl k ↦ rw k (
          in_order-exchange (record p { active = a })
            (empty_body n p.waiting w (ground (arith, q, k)))
          ∙ in_order-added p m)
      | inr k ↦ rw k (in_order-added p m)
    ]
in_order-step h flush_pass n p w q =
    in_order-flushed (is_empty_chunk p.waiting) p ∙ sym (append-nil (in_order p))

abbrev all_ones : SingleMessage → Bool
all_ones m = true

in_order-plan_all :
    (h : Header) (xs : List Step) (k n : ℕ) (p : Plan)
    → IsPlan all_ones k n p
    → n + length xs < 2 ^ 64
    → is_prompt h xs p ≡ true
    → in_order (plan_all h xs p) ≡ in_order p ++ messages_put xs
in_order-plan_all h [] k n p i l q = sym (append-nil (in_order p))
in_order-plan_all h (x ∷ xs) k n p i l q =
    in_order-plan_all h xs _ (suc n) (plan_step h x p)
      (step-IsPlan all_ones h x k n p i (omega (arith, l))) (omega (arith, l)) (ground (arith, q))
    ∙ (ap (λ y. y ++ messages_put xs) (in_order-step h x n p i.waiting (ground (arith, q)))
        ∙ (append_assoc (in_order p) (messages_put (x ∷ [])) (messages_put xs)
            ∙ ap (λ y. in_order p ++ y) (sym (messages_put-cons x xs))))

in_order-plan_close :
    (k n : ℕ) (p : Plan) → IsPlan all_ones k n p → bodies (plan_close p).parts ≡ in_order p
in_order-plan_close k n p i =
    let q = plan_flush p in
    let b = is_empty_chunk (exchange q).waiting in
    let j = flush-IsPlan all_ones k n p i in
    let e = waiting_empty (is_empty_chunk p.waiting) n p i.waiting refl in
    let e' = waiting_empty b n (exchange q) j.active refl in
    let z = plan_close p in
    let nothing : z.waiting.body ++ z.active.body ≡ [] =
      ap (λ y. y ++ z.active.body) e'
      ∙ (ap (λ (y : Chunk). y.body) (active-plan_flushed b (exchange q)) ∙ e) in
    sym (append-nil (bodies z.parts))
    ∙ (ap (λ y. bodies z.parts ++ y) (sym nothing)
        ∙ (in_order-flushed b (exchange q)
            ∙ (in_order-exchange q e ∙ in_order-flushed (is_empty_chunk p.waiting) p)))

-- The order in a file whose chunks were each written out before the next one was full.
pub bodies-parts_of :
    (h : Header) (xs : List Step)
    → length xs < 2 ^ 64
    → is_prompt h xs begun ≡ true
    → bodies (parts_of h xs) ≡ messages_put xs
bodies-parts_of h xs l q =
    let i = begun-IsPlan all_ones in
    let (n, j) = all-IsPlan all_ones h xs 0 0 begun i (omega (arith, l)) in
    in_order-plan_close _ n (plan_all h xs begun) j
    ∙ in_order-plan_all h xs 0 0 begun i (omega (arith, l)) q
