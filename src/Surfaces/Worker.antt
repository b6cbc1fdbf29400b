-- ===== src/Surfaces/Worker.antt =====
-- crates/surfaces/src/outbox.rs: what the worker of the outbox does beside the tables that it writes,
-- from the functions of Wire.antt (`resolve_peer`, and `PeerId::from_str` of crates/transport/src/
-- lib.rs). `Outside` is what other crates give: serde_json's reading and printing and its error, the
-- ULIDs, the quoting of a text by `{:?}`, and the N-Triples of a graph.
use rsntr.Base.{
  ℕ, Bool, true, false, ◌&&◌, ◌||◌, Option, none, some, List, [], ◌∷◌, ◌++◌, ◌==◌, leb, length,
  find, Str, codes, ◌=s◌, is_ascii_digit, as_bytes,
}
use rsntr.Protocol.Envelope.{ℤ, Graph}
use rsntr.Web.Csv.{Value}
use rsntr.Surfaces.Wire.{
  Number, Json, ParamError, not_an_array, unsupported, out_of_range, Parsed, parsed, malformed,
  wire_request_id, parse_params, row_to_json,
}
use rsntr.Surfaces.Outbox.{World, Texts}

-- the columns of `_peers` that resolve a name
pub record PeerName : Type 0 where
  pub endpoint_id : Str
  pub name : Option Str

abbrev is_named : Str → Option Str → Bool
is_named peer none = false
is_named peer (some n) = n =s peer

-- WHERE endpoint_id = ?1 OR name = ?1 LIMIT 1; a query that fails is no row.
unfoldable pub find_peer : Str → Option (List PeerName) → Option PeerName
find_peer peer none = none
find_peer peer (some rows) = find (λ r. r.endpoint_id =s peer || is_named peer r.name) rows

abbrev is_hex_digit : ℕ → Bool
is_hex_digit c = is_ascii_digit c || (leb b'a' c && leb c b'f') || (leb b'A' c && leb c b'F')

-- `u8::from_str_radix(pair, 16)` reads two characters, the first of which may be a plus.
unfoldable pub pairs_parse : Str → Bool
pairs_parse [] = true
pairs_parse (c ∷ []) = false
pairs_parse (c ∷ d ∷ cs) = (is_hex_digit c || c == b'+') && is_hex_digit d && pairs_parse cs

-- A text whose pairs parse is ASCII.
unfoldable pub is_peer_id : Str → Bool
unfolding pairs_parse as_bytes
is_peer_id s = (length (as_bytes s) == 64) && pairs_parse s

abbrev endpoint_of : Str → Option PeerName → Str
endpoint_of peer none = peer
endpoint_of peer (some r) = r.endpoint_id

unfoldable pub resolve_peer : Option (List PeerName) → Str → Bool
unfolding find_peer is_peer_id
resolve_peer peers peer = is_peer_id (endpoint_of peer (find_peer peer peers))

pub record Outside (Real Body : Type 0) : Type 0 where
  pub read : Str → Option (List (Json Real))
  pub read_error : Str → Str
  pub ulid : Str → Option (List ℕ)
  pub ulid_text : List ℕ → Str
  pub debug : Str → Str
  pub from_i64 : ℤ → Number Real
  pub from_f64 : Real → Option (Number Real)
  pub array_text : List (Json Real) → Str
  pub string_text : Str → Str
  pub graph_text : Graph Body → Str

module _ {Real Body : Type 0} (o : Outside Real Body) where
  abbrev error_text : Str → ParamError → Str
  error_text raw not_an_array = codes "params is not a JSON array: " ++ o.read_error raw
  error_text raw unsupported = codes "array/object parameters are not supported"
  error_text raw (out_of_range n) = codes "parameter number " ++ n ++ codes " is out of range"

  abbrev error_of : Str → Parsed (List (Value Real)) → Option Str
  error_of raw (parsed values) = none
  error_of raw (malformed e) = some (error_text raw e)

  abbrev worker_texts : Texts (Value Real) Body
  unfolding row_to_json
  worker_texts = record {
    row_text = λ columns r. o.array_text (row_to_json o.from_i64 o.from_f64 columns r);
    graph_text = o.graph_text;
    generic_text = λ g. codes "{\"generic\":" ++ o.string_text g.class ++ codes "}";
  }

  unfoldable pub worker_world : Option (List PeerName) → World (Value Real) Body
  unfolding worker_texts resolve_peer parse_params wire_request_id
  worker_world peers = record {
    malformed = λ params. error_of params (parse_params o.read params);
    resolves = resolve_peer peers;
    unknown_peer = λ peer.
        codes "unknown peer "
        ++ o.debug peer
        ++ codes ": not in _peers and not a 64-hex endpoint id";
    request_id = λ stored. o.ulid_text (wire_request_id o.ulid stored);
    texts = worker_texts;
  }
