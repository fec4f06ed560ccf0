-- ===== src/Record/Plan.antt =====
-- What a writer does, without bytes and positions: the chunk that fills, the chunk that waits for the
-- flush thread, and the parts that have been written.
use cyber_rt_standalone_r.Prelude.{
  ℕ, ◌+◌, ◌≡◌, refl, sym, ap, ◌∙◌, List, [], ◌∷◌, ◌++◌, Bool, true, false, if◌then◌else◌, arith,
}
use mathlib.Core.List.{append_assoc}
use cyber_rt_standalone_r.Record.{SingleMessage, Header, ChunkBody}
use cyber_rt_standalone_r.Record.Writer.{
  Chunk, cleared, add_message, is_empty_chunk, need_flush, Step, put_channel, put_message,
  flush_pass,
}
use cyber_rt_standalone_r.Record.Read.{Part, channel_part, chunk_part}

pub record Plan : Type 0 where
  pub active : Chunk
  pub waiting : Chunk
  pub parts : List Part

abbrev pub begun : Plan
begun = record { active = cleared; waiting = cleared; parts = [] }

abbrev pub exchange : Plan → Plan
exchange p = record p { active = p.waiting; waiting = p.active }

abbrev pub plan_flushed : Bool → Plan → Plan
plan_flushed true p = p
plan_flushed false p = record {
  active = p.active;
  waiting = cleared;
  parts = p.parts ++ chunk_part p.waiting.header p.waiting.body ∷ [];
}

abbrev pub plan_flush : Plan → Plan
plan_flush p = plan_flushed (is_empty_chunk p.waiting) p

abbrev pub plan_message : Header → SingleMessage → Plan → Plan
plan_message h m p =
    let a = add_message p.active m in
    if need_flush h a.header m then exchange (record p { active = a }) else record p { active = a }

abbrev pub plan_step : Header → Step → Plan → Plan
plan_step h (put_channel c) p = record p { parts = p.parts ++ channel_part c ∷ [] }
plan_step h (put_message m) p = plan_message h m p
plan_step h flush_pass p = plan_flush p

abbrev pub plan_all : Header → List Step → Plan → Plan
plan_all h [] p = p
plan_all h (x ∷ xs) p = plan_all h xs (plan_step h x p)

abbrev pub plan_close : Plan → Plan
plan_close p = plan_flush (exchange (plan_flush p))

-- The parts of a file.
abbrev pub parts_of : Header → List Step → List Part
parts_of h xs = (plan_close (plan_all h xs begun)).parts

-- The messages in some parts, and the messages that were written.
abbrev pub bodies : List Part → ChunkBody
bodies [] = []
bodies (channel_part c ∷ xs) = bodies xs
bodies (chunk_part h b ∷ xs) = b ++ bodies xs

abbrev pub messages_put : List Step → ChunkBody
messages_put [] = []
messages_put (put_channel c ∷ xs) = messages_put xs
messages_put (put_message m ∷ xs) = m ∷ messages_put xs
messages_put (flush_pass ∷ xs) = messages_put xs

abbrev pub count : (SingleMessage → Bool) → ChunkBody → ℕ
count f [] = 0
count f (m ∷ ms) = (if f m then 1 else 0) + count f ms

pub count-append :
    (f : SingleMessage → Bool) (xs ys : ChunkBody) → count f (xs ++ ys) ≡ count f xs + count f ys
count-append f [] ys = omega arith
count-append f (x ∷ xs) ys = omega (arith, count-append f xs ys)

pub bodies-append : (xs ys : List Part) → bodies (xs ++ ys) ≡ bodies xs ++ bodies ys
bodies-append [] ys = refl
bodies-append (channel_part c ∷ xs) ys = bodies-append xs ys
bodies-append (chunk_part h b ∷ xs) ys =
    ap (λ s. b ++ s) (bodies-append xs ys) ∙ sym (append_assoc b (bodies xs) (bodies ys))
