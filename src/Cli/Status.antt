-- ===== src/Cli/Status.antt =====
-- The status query of the command line against the daemon's answer.
use athar.Prelude.{
  ℕ, ◌*◌, ◌%◌, ◌<◌, ◌≤◌, ◌≡◌, refl, ap, ◌∙◌, true, false, ◌||◌, Option, some, List, [], ◌∷◌, ◌++◌,
  Bytes, be_bytes, length-be_bytes, length, ltb, ◌==◌, u32_size, arith,
}
use mathlib.Core.List.{append_assoc, append-nil}
use athar.Governor.Level.{p1, allows}
use athar.Governor.Recompute.{current_level}
use athar.Storage.Recovery.{read_exact_at, header_value}
use athar.Daemon.Wire.{response_frame, write_json_frame}
use athar.Daemon.State.{Moment, Daemon, Outside, Turn, turn, finished, answered}
use athar.Daemon.Ingest.{build_status_body, is_set, parsed, admit, next, ingest_one}
use athar.Daemon.Ingest.Outcomes.{next_finished}
use athar.Cli.Client.{Link, parse_body, after_body, after_header, query_status_body}

-- The socket carries the request.
pub record Works (l : Link) : Type 0 where
  pub resolves : l.resolves ≡ true
  pub connects : l.connects ≡ true
  pub body : Bytes
  pub request : l.request ≡ some body
  pub header_sent : l.header_sent ≡ true
  pub body_sent : l.body_sent ≡ true

module _ {Json : Type 0} (parse_json : Bytes → Option Json) where
  query-response_frame :
      (l : Link) (body rest : Bytes)
      → Works l
      → l.reply ≡ response_frame body ++ rest
      → 0 < length body
      → length body ≤ 1024 * 1024
      → query_status_body parse_json l ≡ parse_body parse_json (parse_json body)
  unfolding query_status_body response_frame after_header after_body
  query-response_frame l body rest w reply some_ few =
      let header = be_bytes 4 (length body % u32_size) in
      let e : l.reply ≡ header ++ (body ++ rest) = reply ∙ append_assoc header body rest in
      let plausible : ((length body == 0) || ltb (1024 * 1024) (length body)) ≡ false =
        ground arith in
      rw
        (
          w.resolves,
          w.connects,
          w.request,
          w.header_sent,
          w.body_sent,
          e,
          query_status_body,
          read_exact_at 4 header (body ++ rest) (length-be_bytes 4 _),
          after_header,
          header_value body (omega (arith, few)),
          plausible,
          read_exact_at (length body) body rest refl,
        )
        refl

module _ {S D F32 F64 Json : Type 0} (out : Outside S D F32 F64 Json) where
  answered_stays :
      (moments : ℕ → Moment) (d : Daemon S D F32 F64) (frame : Bytes) (written : List Bytes)
      → admit out (moments 0) d frame ≡ turn d (finished answered) written
      → (ingest_one out moments d frame).written ≡ written
  unfolding ingest_one
  answered_stays moments d frame written e =
      let n1 = next_finished out (moments 1) d answered written in
      let n2 = next_finished out (moments 2) d answered written in
      let n3 = next_finished out (moments 3) d answered written in
      let n4 = next_finished out (moments 4) d answered written in
      let t1 = ap (next out (moments 1)) e ∙ n1 in
      let t2 = ap (next out (moments 2)) t1 ∙ n2 in
      let t3 = ap (next out (moments 3)) t2 ∙ n3 in
      ap (λ (t : Turn S D F32 F64 Json). t.written) (ap (next out (moments 4)) t3 ∙ n4)

  -- What was written to a connection, one frame after the other.
  abbrev pub flat : List Bytes → Bytes
  flat [] = []
  flat (b ∷ bs) = b ++ flat bs

  -- A frame that asks for the status.
  pub record AsksStatus (d : Daemon S D F32 F64) (frame : Bytes) : Type 0 where
    pub admitted : allows (current_level d.governor) p1 ≡ true
    pub raw : Json
    pub parses : out.serde.parse frame ≡ some raw
    pub flagged : is_set out raw "__status__" ≡ true

  admit_status :
      (m : Moment) (d : Daemon S D F32 F64) (frame body : Bytes)
      → AsksStatus d frame
      → m.connection_ok ≡ true
      → out.serde.status_bytes (build_status_body out m d) ≡ some body
      → admit out m d frame ≡ turn d (finished answered) (response_frame body ∷ [])
  unfolding admit parsed write_json_frame
  admit_status m d frame body a connected spelled =
      rw (a.admitted, a.parses, a.flagged, admit, parsed)
        (ap (turn d (finished answered))
          (rw (spelled, write_json_frame) (rw (connected, write_json_frame) refl)))

  -- The status query against a daemon that the pressure lets answer, over a socket that carries the
  -- request and the reply: what the command line gets is the parsed body that the daemon spelled, for a
  -- body of at least one byte and at most 1 MiB, whatever follows on the connection.
  pub query_status_body-ingest_one :
      (moments : ℕ → Moment) (d : Daemon S D F32 F64) (frame body rest : Bytes) (l : Link)
      (parse_json : Bytes → Option Json)
      → AsksStatus d frame
      → (moments 0).connection_ok ≡ true
      → out.serde.status_bytes (build_status_body out (moments 0) d) ≡ some body
      → 0 < length body
      → length body ≤ 1024 * 1024
      → Works l
      → l.reply ≡ flat (ingest_one out moments d frame).written ++ rest
      → query_status_body parse_json l ≡ parse_body parse_json (parse_json body)
  query_status_body-ingest_one moments d frame body rest l parse_json a connected spelled some_ few
        w reply =
      let wrote =
        answered_stays moments d frame (response_frame body ∷ [])
          (admit_status (moments 0) d frame body a connected spelled) in
      let sent : l.reply ≡ response_frame body ++ rest =
        reply
        ∙ ap (λ x. flat x ++ rest) wrote
        ∙ ap (λ x. x ++ rest) (append-nil (response_frame body)) in
      query-response_frame parse_json l body rest w sent some_ few
