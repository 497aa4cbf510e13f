-- ===== src/Filetransfer/Ticket.antt =====
-- internal/filetransfer/ticket.go: the ticket of a transfer.
pub mod RoundTrip
use nex_talk.Base.{
  ℕ, ◌≡◌, Bool, true, false, not, ◌||◌, Option, none, some, List, [], ◌∷◌, arith, Bytes, beq,
  is_empty, ◌==◌, if◌then◌else◌, length, Result, ok, err, ◌>>=◌, ◌>>◌, require, or_fail,
}
use nex_talk.Std.Base64.{base64, unbase64}
use nex_talk.External.{External, Field}
use nex_talk.Crypto.SecureMessage.{field}
use nex_talk.Core.Wire.{is_json}
use nex_talk.Filetransfer.Manifests.{Manifest, ManifestError, parse_manifest}

pub record Ticket : Type 0 where
  pub transfer : Bytes
  pub secret : Bytes
  pub shard : Bytes
  pub manifest : Bytes
  pub from : Bytes

pub data TicketError : Type 0 where
  bad_transfer bad_secret missing_fields marshal_failed not_a_ticket : TicketError
  bad_ticket_record unsupported_version : TicketError
  bad_manifest : ManifestError → TicketError

-- TicketVersion
abbrev pub ticket_version : ℕ
ticket_version = 2

unfoldable pub ticket_fields : Ticket → List Field
ticket_fields t =
    field 1 (ticket_version ∷ [])
    ∷ field 2 t.transfer
    ∷ field 3 t.secret
    ∷ field 4 t.shard
    ∷ field 5 t.manifest
    ∷ field 6 t.from
    ∷ []

abbrev pub empty_ticket : Ticket
empty_ticket = record { transfer = []; secret = []; shard = []; manifest = []; from = [] }

-- One round of the loop of ParseTicket: `none` is another version.
unfoldable pub set_ticket_field : Ticket → Field → Option Ticket
set_ticket_field t f =
    if f.id == 1
    then (if beq f.bytes (ticket_version ∷ []) then some t else none)
    else if f.id == 2
    then some (record t { transfer = f.bytes })
    else if f.id == 3
    then some (record t { secret = f.bytes })
    else if f.id == 4
    then some (record t { shard = f.bytes })
    else if f.id == 5
    then some (record t { manifest = f.bytes })
    else if f.id == 6
    then some (record t { from = f.bytes })
    else some t

unfoldable pub read_ticket : Ticket → List Field → Option Ticket
read_ticket t [] = some t
read_ticket t (f ∷ fs) = elim (set_ticket_field t f) [ none ↦ none | some u ↦ read_ticket u fs ]

-- Its test of the fields that must be there.
unfoldable pub has_fields : Ticket → Bool
has_fields t = not (
    not (length t.transfer == 16)
    || not (length t.secret == 32)
    || is_empty t.shard
    || is_empty t.manifest)

-- The error of the embedded manifest.
unfoldable pub check_manifest : Result ManifestError Manifest → Result TicketError (Unit {0})
check_manifest (ok m) = ok tt
check_manifest (err e) = err (bad_manifest e)

module _ (x : External) where
  -- MarshalTicket
  unfoldable pub marshal_ticket : Ticket → Result TicketError Bytes
  marshal_ticket t = do
    require (length t.transfer == 16) bad_transfer
    require (length t.secret == 32) bad_secret
    require (not (is_empty t.shard || is_empty t.manifest)) missing_fields
    or_fail (x.encode_id (ticket_fields t)) marshal_failed

  -- ParseTicket
  unfoldable pub parse_ticket : Bytes → Result TicketError Ticket
  parse_ticket raw = do
    require (not (is_json raw)) not_a_ticket
    fields ← or_fail (x.decode_id raw) bad_ticket_record
    t ← or_fail (read_ticket empty_ticket fields) unsupported_version
    require (has_fields t) missing_fields
    check_manifest (parse_manifest x t.manifest)
    ok t

-- EncodeTicketString and DecodeTicketString
unfoldable pub encode_ticket_string : Bytes → Bytes
encode_ticket_string raw = base64 raw

unfoldable pub decode_ticket_string : Bytes → Option Bytes
decode_ticket_string s = unbase64 s
