-- ===== src/Record/Closed.antt =====
-- What stands in the file of a writer that has been closed.
use cyber_rt_standalone_r.Prelude.{
  ℕ, ◌+◌, ◌≡◌, ◌≤◌, refl, sym, ap, ◌∙◌, List, [], ◌++◌, true, length, length-append, drop,
  drop-append, arith,
}
use mathlib.Core.List.{append_assoc}
use cyber_rt_standalone_r.Record.{Header, Index, Codecs}
use cyber_rt_standalone_r.Record.File.{File, section_index, write_section, write_header_section}
use cyber_rt_standalone_r.Record.Writer.{
  RecordFileWriter, opened, swap, flush, Step, noted, with_numbers, write_header, write_index,
  close, perform_all, write_file,
}
use cyber_rt_standalone_r.Record.Read.{Part, encode_all, stream}
use cyber_rt_standalone_r.Record.Plan.{begun, exchange, plan_flush, plan_all, plan_close, parts_of}
use cyber_rt_standalone_r.Record.Written.{
  framed, write_section-Written, header_bytes, length-header_bytes, write_header_section-Written,
  frame-append, encode_all-append,
}
use cyber_rt_standalone_r.Record.Refined.{
  begin_after, bytes_of, Refines, opened-Refines, all-Refines, flush-Refines, swap-Refines,
}

module _ (cs : Codecs) (h : Header) (old : List ℕ) (xs : List Step) where
  -- The writer before its index and header are written.
  abbrev pub last_writer : RecordFileWriter
  last_writer =
      let w = perform_all cs xs (write_header cs h (opened h old)) in flush cs (swap (flush cs w))

  abbrev pub parts : List Part
  parts = parts_of h xs

  last_writer-Refines : Refines cs h old last_writer (plan_close (plan_all h xs begun))
  last_writer-Refines =
      let w0 = write_header cs h (opened h old) in
      let w = perform_all cs xs w0 in
      let p = plan_all h xs begun in
      let r = all-Refines cs h old xs w0 begun (opened-Refines cs h old) in
      flush-Refines cs h old (swap (flush cs w)) (exchange (plan_flush p))
        (swap-Refines cs h old (flush cs w) (plan_flush p) (flush-Refines cs h old w p r))

  -- The index, the header and the file that `close` leaves.
  abbrev pub last_index : Index
  last_index = with_numbers last_writer.channel_message_number_map last_writer.index

  abbrev indexed : File
  indexed = write_section cs.index section_index last_index last_writer.file

  abbrev pub last_header : Header
  last_header =
      let p = record last_writer.header { index_position = last_writer.file.position } in
      record (noted p indexed) { is_complete = true }

  write_file-last : write_file cs h old xs ≡ write_header_section cs.header last_header indexed
  unfolding write_file close write_index write_header
  write_file-last = refl

  abbrev pub behind : List ℕ
  behind = drop (length (bytes_of cs h old parts ++ framed cs.index section_index last_index)) old

  indexed-content : indexed.content ≡ header_bytes cs.header h ++ stream cs parts last_index behind
  indexed-content =
      let a = header_bytes cs.header h in
      let b = encode_all cs parts [] in
      let c = framed cs.index section_index last_index in
      let v =
        write_section-Written cs.index section_index last_index last_writer.file
          (bytes_of cs h old parts) old last_writer-Refines.written in
      v.content
      ∙ (append_assoc (a ++ b) c behind
          ∙ (append_assoc a b (c ++ behind)
              ∙ ap (λ y. a ++ y)
                  (sym (encode_all-append cs parts [] (c ++ behind))
                    ∙ ap (encode_all cs parts)
                        (sym (frame-append cs cs.index section_index last_index [] behind)))))

  pub write_file-content :
      length (cs.header.serialize h) ≤ 2048
      → length (cs.header.serialize last_header) ≤ 2048
      → (write_file cs h old xs).content
        ≡ header_bytes cs.header last_header ++ stream cs parts last_index behind
  write_file-content s t =
      let a = header_bytes cs.header last_header in
      let b = header_bytes cs.header h in
      let y = stream cs parts last_index behind in
      let l = length-header_bytes cs.header last_header t in
      let k = length-header_bytes cs.header h s in
      ap (λ (f : File). f.content) write_file-last
      ∙ ((write_header_section-Written cs.header last_header indexed).content
          ∙ ap (λ u. a ++ u)
              (ap (λ n. drop n indexed.content) (l ∙ sym k)
                ∙ (ap (drop (length b)) indexed-content ∙ drop-append (length b) b y refl)))

  pub last_header-index_position :
      last_header.index_position
      ≡ length (header_bytes cs.header h) + length (encode_all cs parts [])
  last_header-index_position = omega (
    arith,
    last_writer-Refines.written.position,
    length-append (header_bytes cs.header h) (encode_all cs parts []),
  )

  pub last_header-begin_time : last_header.begin_time ≡ begin_after h.begin_time parts
  last_header-begin_time = last_writer-Refines.begins
