-- ===== src/Cli/Client.antt =====
-- `query_status_body` and `flag_value` of daemon/crates/athar-cli/src/main.rs. What the socket does is
-- an argument: whether each call succeeds, and the bytes that the daemon sends.
use athar.Prelude.{
  ℕ, ◌*◌, String, Bool, ◌||◌, Option, none, some, List, [], ◌∷◌, Bytes, from_be_bytes, ltb, ◌==◌,
  str_eq, if◌then◌else◌,
}
use athar.Storage.Framing.{read_exact}

-- `--flag value`.
unfoldable pub flag_value : List String → String → Option String
flag_value [] flag = none
flag_value (a ∷ []) flag = none
flag_value (a ∷ b ∷ rest) flag =
    let later = flag_value (b ∷ rest) flag in if str_eq a flag then some b else later

-- The short reasons of the query's errors.
pub data Failure : Type 0 where
  resolve connect encode write_header write_body read_header read_body parse : Failure
  implausible : ℕ → Failure

pub data Queried (Json : Type 0) : Type 0 where
  answered : Json → Queried Json
  failed : Failure → Queried Json

pub record Link : Type 0 where
  pub resolves : Bool
  pub connects : Bool
  pub request : Option Bytes
  pub header_sent : Bool
  pub body_sent : Bool
  pub reply : Bytes

module _ {Json : Type 0} (parse_json : Bytes → Option Json) where
  unfoldable pub parse_body : Option Json → Queried Json
  parse_body none = failed parse
  parse_body (some body) = answered body

  unfoldable pub after_body : Option (Bytes × Bytes) → Queried Json
  unfolding parse_body
  after_body none = failed read_body
  after_body (some (body, rest)) = parse_body (parse_json body)

  unfoldable pub after_header : Option (Bytes × Bytes) → Queried Json
  unfolding after_body read_exact
  after_header none = failed read_header
  after_header (some (hdr, rest)) =
      let n = from_be_bytes hdr in
      if (n == 0) || ltb (1024 * 1024) n
      then failed (implausible n)
      else after_body (read_exact n rest)

  unfoldable pub query_status_body : Link → Queried Json
  unfolding after_header
  query_status_body l =
      if l.resolves
      then (if l.connects
          then elim l.request [
            | none ↦ failed encode
            | some body ↦
                if l.header_sent
                then (if l.body_sent
                    then after_header (read_exact 4 l.reply)
                    else failed write_body)
                else failed write_header
          ]
          else failed connect)
      else failed resolve
