-- ===== src/Record/Samples.antt =====
-- Codecs that can be run, in place of protocol buffers.
use cyber_rt_standalone_r.Prelude.{
  ℕ, zero, suc, ◌≡◌, refl, ap, ◌∙◌, List, [], ◌∷◌, Bool, true, false, Option, some, none,
  if◌then◌else◌, ◌==◌, length,
}
use cyber_rt_standalone_r.Record.{
  SingleMessage, Header, Channel, ChunkHeader, SingleIndex, channel_index, chunk_header_index,
  chunk_body_index, Codec, IsCodec, Codecs, AreCodecs,
}

-- A value in front of a list of numbers, and its reading back.
pub record Wire (A : Type 0) : Type 0 where
  pub put : A → List ℕ → List ℕ
  pub get : List ℕ → Option (A × List ℕ)
  pub law : (a : A) (s : List ℕ) → get (put a s) ≡ some (a, s)

abbrev then_get : {A B : Type 0} → (A → List ℕ → Option B) → Option (A × List ℕ) → Option B
then_get f none = none
then_get f (some (a, s)) = f a s

abbrev get_number : List ℕ → Option (ℕ × List ℕ)
get_number [] = none
get_number (n ∷ s) = some (n, s)

abbrev number : Wire ℕ
number = record { put = λ n s. n ∷ s; get = get_number; law = λ n s. refl }

module _ {A : Type 0} (w : Wire A) where
  abbrev put_all : List A → List ℕ → List ℕ
  put_all [] s = s
  put_all (x ∷ xs) s = w.put x (put_all xs s)

  abbrev get_all : ℕ → List ℕ → Option (List A × List ℕ)
  get_all zero s = some ([], s)
  get_all (suc n) s = then_get (λ x t. then_get (λ xs u. some (x ∷ xs, u)) (get_all n t)) (w.get s)

  pub all_law : (xs : List A) (s : List ℕ) → get_all (length xs) (put_all xs s) ≡ some (xs, s)
  all_law [] s = refl
  all_law (x ∷ xs) s =
      let next : A → List ℕ → Option (List A × List ℕ) =
        λ y t. then_get (λ ys u. some (y ∷ ys, u)) (get_all (length xs) t) in
      ap (then_get next) (w.law x (put_all xs s))
      ∙ ap (then_get (λ ys u. some (x ∷ ys, u))) (all_law xs s)

  abbrev get_list : List ℕ → Option (List A × List ℕ)
  get_list [] = none
  get_list (n ∷ s) = get_all n s

  abbrev list : Wire (List A)
  list = record { put = λ xs s. length xs ∷ put_all xs s; get = get_list; law = all_law }

abbrev pair : {A B : Type 0} → Wire A → Wire B → Wire (A × B)
pair {A} {B} v w = record {
  put = λ x s. v.put x.0 (w.put x.1 s);
  get = λ s. then_get (λ a t. then_get (λ b u. some ((a, b), u)) (w.get t)) (v.get s);
  law = λ x s.
      let next : A → List ℕ → Option ((A × B) × List ℕ) =
        λ a t. then_get (λ b u. some ((a, b), u)) (w.get t) in
      ap (then_get next) (v.law x.0 (w.put x.1 s))
      ∙ ap (then_get (λ b u. some ((x.0, b), u))) (w.law x.1 s);
}

abbrev through :
    {A B : Type 0} (to : A → B) (from : B → A) → ((a : A) → from (to a) ≡ a) → Wire B → Wire A
through to from inverse w = record {
  put = λ a s. w.put (to a) s;
  get = λ s. then_get (λ b t. some (from b, t)) (w.get s);
  law = λ a s.
      ap (then_get (λ b t. some (from b, t))) (w.law (to a) s) ∙ ap (λ x. some (x, s)) (inverse a);
}

abbrev parsed : {A : Type 0} → Option (A × List ℕ) → Option A
parsed none = none
parsed (some (a, s)) = some a

abbrev codec : {A : Type 0} → Wire A → Codec A
codec w = record { serialize = λ a. w.put a []; parse = λ s. parsed (w.get s) }

codec-IsCodec : {A : Type 0} (w : Wire A) → IsCodec (codec w)
codec-IsCodec w = record { parse-serialize = λ a. ap parsed (w.law a []) }

abbrev text : Wire (List ℕ)
text = list number

abbrev to_bool : ℕ → Bool
to_bool n = n == 1

abbrev of_bool : Bool → ℕ
of_bool b = if b then 1 else 0

pub bool_inverse : (b : Bool) → to_bool (of_bool b) ≡ b
bool_inverse true = refl
bool_inverse false = refl

abbrev four : Wire (ℕ × (ℕ × (ℕ × ℕ)))
four = pair number (pair number (pair number number))

abbrev header_wire : Wire Header
header_wire =
    through {B = (ℕ × (ℕ × (ℕ × ℕ))) × ((ℕ × (ℕ × (ℕ × ℕ))) × (ℕ × (ℕ × (ℕ × ℕ))))}
      (λ h. (
        (h.chunk_interval, (h.segment_interval, (h.index_position, h.chunk_number))),
        (
          (h.channel_number, (h.begin_time, (h.end_time, h.message_number))),
          (h.size, (of_bool h.is_complete, (h.chunk_raw_size, h.segment_raw_size))),
        ),
      ))
      (λ x. record {
        chunk_interval = x.0.0;
        segment_interval = x.0.1.0;
        index_position = x.0.1.1.0;
        chunk_number = x.0.1.1.1;
        channel_number = x.1.0.0;
        begin_time = x.1.0.1.0;
        end_time = x.1.0.1.1.0;
        message_number = x.1.0.1.1.1;
        size = x.1.1.0;
        is_complete = to_bool x.1.1.1.0;
        chunk_raw_size = x.1.1.1.1.0;
        segment_raw_size = x.1.1.1.1.1;
      })
      (λ h. ap (λ b. record h { is_complete = b }) (bool_inverse h.is_complete))
      (pair four (pair four four))

abbrev chunk_header_wire : Wire ChunkHeader
chunk_header_wire =
    through {B = ℕ × (ℕ × (ℕ × ℕ))}
      (λ h. (h.begin_time, (h.end_time, (h.message_number, h.raw_size))))
      (λ x. record {
        begin_time = x.0;
        end_time = x.1.0;
        message_number = x.1.1.0;
        raw_size = x.1.1.1;
      })
      (λ h. refl) four

abbrev channel_wire : Wire Channel
channel_wire =
    through {B = List ℕ × (List ℕ × List ℕ)} (λ c. (c.name, (c.message_type, c.proto_desc)))
      (λ x. record { name = x.0; message_type = x.1.0; proto_desc = x.1.1 }) (λ c. refl)
      (pair text (pair text text))

abbrev message_wire : Wire SingleMessage
message_wire =
    through {B = List ℕ × (ℕ × List ℕ)} (λ m. (m.channel_name, (m.time, m.content)))
      (λ x. record { channel_name = x.0; time = x.1.0; content = x.1.1 }) (λ m. refl)
      (pair text (pair number text))

-- An index entry as its type, its position, numbers and texts.
abbrev to_entry : SingleIndex → (ℕ × ℕ) × (List ℕ × List (List ℕ))
to_entry (channel_index p c) =
    ((0, p), (c.message_number ∷ [], c.name ∷ c.message_type ∷ c.proto_desc ∷ []))
to_entry (chunk_header_index p h) =
    ((1, p), (h.begin_time ∷ h.end_time ∷ h.message_number ∷ h.raw_size ∷ [], []))
to_entry (chunk_body_index p n) = ((2, p), (n ∷ [], []))

abbrev of_entry : (ℕ × ℕ) × (List ℕ × List (List ℕ)) → SingleIndex
of_entry ((t, p), (n ∷ [], a ∷ b ∷ c ∷ [])) =
    channel_index p (record { message_number = n; name = a; message_type = b; proto_desc = c })
of_entry ((t, p), (a ∷ b ∷ c ∷ d ∷ [], [])) =
    chunk_header_index p (record { begin_time = a; end_time = b; message_number = c; raw_size = d })
of_entry ((t, p), (n ∷ [], [])) = chunk_body_index p n
of_entry ((t, p), x) = chunk_body_index p 0

pub entry_inverse : (i : SingleIndex) → of_entry (to_entry i) ≡ i
entry_inverse (channel_index p c) = refl
entry_inverse (chunk_header_index p h) = refl
entry_inverse (chunk_body_index p n) = refl

abbrev entry_wire : Wire SingleIndex
entry_wire =
    through to_entry of_entry entry_inverse (pair (pair number number) (pair text (list text)))

abbrev pub samples : Codecs
samples = record {
  header = codec header_wire;
  channel = codec channel_wire;
  chunk_header = codec chunk_header_wire;
  chunk_body = codec (list message_wire);
  index = codec (list entry_wire);
}

pub samples-AreCodecs : AreCodecs samples
samples-AreCodecs = record {
  header = codec-IsCodec header_wire;
  channel = codec-IsCodec channel_wire;
  chunk_header = codec-IsCodec chunk_header_wire;
  chunk_body = codec-IsCodec (list message_wire);
  index = codec-IsCodec (list entry_wire);
}
