-- ===== src/Record/Split.antt =====
-- A recording as the parts of it that went to each file.
use cyber_rt_standalone_r.Prelude.{
  ℕ, zero, suc, ◌+◌, ◌%◌, length-append, ◌≡◌, ◌≤◌, refl, sym, ap, ◌∙◌, List, [], ◌∷◌, ◌++◌, false,
  ◌&&◌, ltb, length, arith,
}
use mathlib.Core.List.{append_assoc, append-nil}
use cyber_rt_standalone_r.Record.{SingleMessage, Header, Channel, ChunkBody, Codecs}
use cyber_rt_standalone_r.Record.File.{File}
use cyber_rt_standalone_r.Record.Writer.{
  RecordFileWriter, Step, put_channel, put_message, flush_pass, write_channel, perform, perform_all,
  close, write_file,
}
use cyber_rt_standalone_r.Record.Plan.{messages_put}
use cyber_rt_standalone_r.Record.Segments.{
  RecordWriter, Call, call_message, channels_of_maps, write_channels, begin_file, split_outfile,
}

-- The messages of calls and of parts, and the bytes in some messages.
abbrev pub messages_called : List Call → ChunkBody
messages_called [] = []
messages_called (call_message m ∷ xs) = m ∷ messages_called xs
messages_called (_ ∷ xs) = messages_called xs

abbrev pub all_messages : List (List Step) → ChunkBody
all_messages [] = []
all_messages (s ∷ ss) = messages_put s ++ all_messages ss

abbrev pub weight : ChunkBody → ℕ
weight [] = 0
weight (m ∷ ms) = length m.content + weight ms

-- All messages but the last.
abbrev pub front : ChunkBody → ChunkBody
front [] = []
front (m ∷ []) = []
front (m ∷ n ∷ ms) = m ∷ front (n ∷ ms)

-- Without its last message, a part is not over the size of a segment, if there is one.
abbrev pub AreBounded : ℕ → List (List Step) → Type 0
AreBounded limit [] = Unit
AreBounded limit (s ∷ ss) =
    ((ltb 0 limit && ltb limit (weight (front (messages_put s)))) ≡ false) × AreBounded limit ss

pub weight-append : (xs ys : ChunkBody) → weight (xs ++ ys) ≡ weight xs + weight ys
weight-append [] ys = omega arith
weight-append (m ∷ ms) ys = omega (arith, weight-append ms ys)

pub front-snoc : (ms : ChunkBody) (m : SingleMessage) → front (ms ++ m ∷ []) ≡ ms
front-snoc [] m = refl
front-snoc (n ∷ []) m = refl
front-snoc (n ∷ o ∷ ms) m = ap (◌∷◌ n) (front-snoc (o ∷ ms) m)

pub weight-front : (ms : ChunkBody) → weight (front ms) ≤ weight ms
weight-front [] = omega arith
weight-front (m ∷ []) = omega arith
weight-front (m ∷ n ∷ ms) = omega (arith, weight-front (n ∷ ms))

pub messages_put-append :
    (xs ys : List Step) → messages_put (xs ++ ys) ≡ messages_put xs ++ messages_put ys
messages_put-append [] ys = refl
messages_put-append (put_channel c ∷ xs) ys = messages_put-append xs ys
messages_put-append (put_message m ∷ xs) ys = ap (◌∷◌ m) (messages_put-append xs ys)
messages_put-append (flush_pass ∷ xs) ys = messages_put-append xs ys

pub all_messages-snoc :
    (ss : List (List Step)) (s : List Step)
    → all_messages (ss ++ s ∷ []) ≡ all_messages ss ++ messages_put s
all_messages-snoc [] s = append-nil (messages_put s)
all_messages-snoc (t ∷ ss) s =
    ap (λ y. messages_put t ++ y) (all_messages-snoc ss s)
    ∙ sym (append_assoc (messages_put t) (all_messages ss) (messages_put s))

pub AreBounded-snoc :
    (limit : ℕ) (ss : List (List Step)) (s : List Step)
    → AreBounded limit ss
    → (ltb 0 limit && ltb limit (weight (front (messages_put s)))) ≡ false
    → AreBounded limit (ss ++ s ∷ [])
AreBounded-snoc limit [] s b h = (h, tt)
AreBounded-snoc limit (t ∷ ss) s (k, b) h = (k, AreBounded-snoc limit ss s b h)

-- The channels at the beginning of a file.
abbrev puts : List Channel → List Step
puts [] = []
puts (c ∷ channels) = put_channel c ∷ puts channels

messages_put-puts : (channels : List Channel) → messages_put (puts channels) ≡ []
messages_put-puts [] = refl
messages_put-puts (c ∷ channels) = messages_put-puts channels

module _ (cs : Codecs) (h : Header) (old : ℕ → List ℕ) where
  -- The file of the k-th part. Numbers go up to 99999 and begin again.
  abbrev numbered : ℕ → List Step → ℕ × File
  numbered k s = (k % 100000, write_file cs h (old k) s)

  -- The files of some parts, from the k-th on.
  abbrev pub files_from : ℕ → List (List Step) → List (ℕ × File)
  files_from k [] = []
  files_from k (s ∷ ss) = numbered k s ∷ files_from (suc k) ss

  files_from-snoc :
      (k : ℕ) (ss : List (List Step)) (s : List Step)
      → files_from k (ss ++ s ∷ [])
        ≡ files_from k ss ++ numbered (k + length (files_from k ss)) s ∷ []
  files_from-snoc k [] s = let e : k ≡ k + zero = omega arith in ap (λ n. numbered n s ∷ []) e
  files_from-snoc k (t ∷ ss) s =
      let n = length (files_from (suc k) ss) in
      let e : suc k + n ≡ k + suc n = omega arith in
      ap (◌∷◌ (numbered k t))
        (files_from-snoc (suc k) ss s ∙ ap (λ i. files_from (suc k) ss ++ numbered i s ∷ []) e)

  pub perform_all-snoc :
      (xs : List Step) (x : Step) (w : RecordFileWriter)
      → perform_all cs (xs ++ x ∷ []) w ≡ perform cs x (perform_all cs xs w)
  perform_all-snoc [] x w = refl
  perform_all-snoc (y ∷ xs) x w = perform_all-snoc xs x (perform cs y w)

  perform_all-puts :
      (channels : List Channel) (w : RecordFileWriter)
      → perform_all cs (puts channels) w ≡ write_channels cs h old channels w
  perform_all-puts [] w = refl
  perform_all-puts (c ∷ channels) w = perform_all-puts channels (write_channel cs c w)

  -- A writer whose closed files are those of some parts, and whose file has had some steps.
  pub record Splits (w : RecordWriter) (ms : ChunkBody) (ss : List (List Step)) (cur : List Step)
      : Type 0 where
    pub files : w.closed ≡ files_from 0 ss
    pub current : w.file_writer ≡ perform_all cs cur (begin_file cs h old (length w.closed))
    pub messages : all_messages ss ++ messages_put cur ≡ ms
    pub raw_size : w.segment_raw_size ≡ weight (messages_put cur)
    pub bounded : AreBounded h.segment_raw_size ss
    pub path : w.path ≡ length w.closed % 100000
    pub file_index : w.file_index ≡ suc w.path

  -- The file that a close leaves.
  pub closes :
      (w : RecordWriter) (ms : ChunkBody) (ss : List (List Step)) (cur : List Step)
      → Splits w ms ss cur
      → w.closed ++ (w.path, (close cs w.file_writer).file) ∷ [] ≡ files_from 0 (ss ++ cur ∷ [])
  unfolding write_file
  closes w ms ss cur s =
      let z : length (files_from 0 ss) ≡ 0 + length (files_from 0 ss) = omega arith in
      let e : (w.path, (close cs w.file_writer).file)
          ≡ numbered (0 + length (files_from 0 ss)) cur =
        (λ i. (s.path i, (close cs (s.current i)).file))
        ∙ (ap (λ (fs : List (ℕ × File)). numbered (length fs) cur) s.files
            ∙ ap (λ n. numbered n cur) z) in
      (λ i. s.files i ++ e i ∷ []) ∙ sym (files_from-snoc 0 ss cur)

  pub split-Splits :
      (w : RecordWriter) (ms : ChunkBody) (ss : List (List Step)) (cur : List Step)
      → Splits w ms ss cur
      → (ltb 0 h.segment_raw_size && ltb h.segment_raw_size (weight (front (messages_put cur))))
        ≡ false
      → (cur' : List Step) × ((messages_put cur' ≡ [])
          × Splits (split_outfile cs h old w) ms (ss ++ cur ∷ []) cur')
  unfolding split_outfile
  split-Splits w ms ss cur s b =
      let channels =
        channels_of_maps w.channel_message_number_map w.channel_message_type_map
          w.channel_proto_desc_map in
      let e = messages_put-puts channels in
      (
        puts channels,
        (
          e,
          record {
            files = closes w ms ss cur s;
            current = sym (perform_all-puts channels _);
            messages =
                ap (λ y. all_messages (ss ++ cur ∷ []) ++ y) e
                ∙ (append-nil (all_messages (ss ++ cur ∷ []))
                    ∙ (all_messages-snoc ss cur ∙ s.messages));
            raw_size = ap weight (sym e);
            bounded = AreBounded-snoc h.segment_raw_size ss cur s.bounded b;
            path = ground (
              arith,
              s.path,
              s.file_index,
              length-append w.closed ((w.path, (close cs w.file_writer).file) ∷ []),
            );
            file_index = refl;
          },
        ),
      )
