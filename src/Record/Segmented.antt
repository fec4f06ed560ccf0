-- ===== src/Record/Segmented.antt =====
-- The files of a recording are those of consecutive parts of it.
use cyber_rt_standalone_r.Prelude.{ℕ, ◌≡◌, List, false, ◌&&◌, ltb}
use cyber_rt_standalone_r.Record.{Header, ChunkBody, Codecs}
use cyber_rt_standalone_r.Record.File.{File}
use cyber_rt_standalone_r.Record.Writer.{Step}
use cyber_rt_standalone_r.Record.Plan.{messages_put}
use cyber_rt_standalone_r.Record.Segments.{RecordWriter}
use cyber_rt_standalone_r.Record.Split.{weight, Splits}

module _ (cs : Codecs) (h : Header) (old : ℕ → List ℕ) where
  -- The part that is being written has not grown over the size.
  abbrev IsUnder : List Step → Type 0
  IsUnder cur =
      (ltb 0 h.segment_raw_size && ltb h.segment_raw_size (weight (messages_put cur))) ≡ false

  abbrev IsSplit : RecordWriter → ChunkBody → Type 0
  IsSplit w ms =
      (ss : List (List Step)) × ((cur : List Step) × (Splits cs h old w ms ss cur × IsUnder cur))
