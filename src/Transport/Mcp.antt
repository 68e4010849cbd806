-- ===== src/Transport/Mcp.antt =====
-- internal/enforce/mcp.go: the MCP listener, JSON-RPC over HTTP with two tools.
pub mod Names
pub mod Server
use kessa.Base.{
  ℕ, suc, ltb, leb, ◌+◌, ◌-◌, ◌==◌, Bytes, Str, codes, str_eq, is_empty, length, take, drop,
  trim_space, Bool, true, false, not, ◌&&◌, ◌||◌, Option, none, some, List, [], ◌∷◌, Result, ok,
  err, ◌>>=◌, ◌>>◌, guard, require, if◌then◌else◌,
}
use kessa.Base.Dict.{Dict, lookup}
use kessa.Base.Int.{ℤ, negsuc}
use kessa.Audit.{tip}
use kessa.Audit.Data.{Entry}
use kessa.Enforce.{Proxy, Request}
use kessa.Enforce.Handle.{handle}
use kessa.Enforce.WriteAhead.{Disk}
use kessa.Env.{Env}
use kessa.Errors.{Error}
use kessa.Transport.Ingress.{
  HttpRequest, Header, absent, single, duplicated, origin_allowed, has_json_content_type,
  single_header, max_request_body,
}
use kessa.Types.{Decision}
use kessa.Web.{Net, starts_with, after_prefix}

abbrev pub mcp_protocol_version : Str
mcp_protocol_version = codes "2026-07-28"

abbrev pub tool_tip : Str
tool_tip = codes "kessa/tip"

abbrev pub tool_enforce : Str
tool_enforce = codes "kessa/enforce"

abbrev pub meta_protocol_version : Str
meta_protocol_version = codes "io.modelcontextprotocol/protocolVersion"

abbrev pub meta_client_capabilities : Str
meta_client_capabilities = codes "io.modelcontextprotocol/clientCapabilities"

pub data RpcCode : Type 0 where
  parse_error invalid_request method_not_found invalid_params internal_error : RpcCode
  header_mismatch unsupported_protocol_version : RpcCode

unfoldable pub rpc_code : RpcCode → ℤ
rpc_code parse_error = negsuc 32699
rpc_code invalid_request = negsuc 32599
rpc_code method_not_found = negsuc 32600
rpc_code invalid_params = negsuc 32601
rpc_code internal_error = negsuc 32602
rpc_code header_mismatch = negsuc 32019
rpc_code unsupported_protocol_version = negsuc 32021

-- `rpcRequest`; raw JSON is kept as its bytes.
pub record RpcRequest : Type 0 where
  pub jsonrpc : Str
  pub id : Bytes
  pub method : Str
  pub params : Bytes

-- `toolCallParams`
pub record ToolCall : Type 0 where
  pub name : Str
  pub arguments : Bytes

-- encoding/json and encoding/base64 at the messages of the listener.
pub record McpCodec : Type 0 where
  pub decode_rpc : Bytes → Option RpcRequest
  -- The `_meta` of params
  pub decode_meta : Bytes → Option (Dict Bytes)
  pub decode_string : Bytes → Option Str
  pub is_object : Bytes → Bool
  pub decode_call : Bytes → Option ToolCall
  pub decode_request : Bytes → Option Request
  pub marshal_tip : ℕ × Bytes → Option Bytes
  pub marshal_result : Decision × Entry → Option Bytes
  pub decode_base64 : Str → Option Bytes

-- What a tool returns, next to its JSON as text.
pub data Payload : Type 0 where
  of_tip : ℕ × Bytes → Payload
  of_decision : Decision × Entry → Payload

-- Answers that are given before a method runs, or in place of its result: http.Error, a status
-- without a body, a panic, after which the connection is closed, and an error of JSON-RPC.
pub data McpStop : Type 0 where
  http_error : ℕ → McpStop
  accepted : McpStop
  aborted : McpStop
  rpc_error : ℕ → Bytes → RpcCode → McpStop

pub data McpReply : Type 0 where
  stopped : McpStop → McpReply
  pong : Bytes → McpReply
  tools : Bytes → List Str → McpReply
  tool_result : Bytes → Bytes → Payload → McpReply
  tool_error : Bytes → Error → McpReply

-- `idOrNull`
id_or_null : Bytes → Bytes
id_or_null [] = codes "null"
id_or_null (c ∷ id) = c ∷ id

unfoldable pub rpc_error_status : ℕ → Bytes → RpcCode → McpStop
unfolding id_or_null
rpc_error_status status id code = rpc_error status (id_or_null id) code

mismatch : Bytes → McpStop
mismatch id = rpc_error_status 400 id header_mismatch

demand_single : Bytes → Header → Result McpStop Str
unfolding mismatch
demand_single id absent = err (mismatch id)
demand_single id duplicated = err (mismatch id)
demand_single id (single v) = ok v

-- `requireSingleHeader`
unfoldable pub require_single_header : HttpRequest → Bytes → Str → Result McpStop Str
unfolding demand_single
require_single_header r id name = demand_single id (single_header r name)

-- `metaIsObject`
meta_is_object : McpCodec → Dict Bytes → Str → Bool
meta_is_object codec meta key = elim (lookup key meta) [
  | none ↦ false
  | some raw ↦ codec.is_object raw
]

not_blank : Option Str → Option Str
not_blank none = none
not_blank (some []) = none
not_blank (some (c ∷ s)) = some (c ∷ s)

-- `metaString`
meta_string : McpCodec → Dict Bytes → Str → Option Str
unfolding not_blank
meta_string codec meta key = elim (lookup key meta) [
  | none ↦ none
  | some raw ↦ not_blank (codec.decode_string raw)
]

meta_of : McpCodec → Bytes → Bytes → Result McpStop (Dict Bytes)
meta_of codec id [] = ok []
meta_of codec id (c ∷ params) =
    require (codec.decode_meta (c ∷ params)) (rpc_error_status 400 id invalid_params)

-- `validateRequestMetadata`
unfoldable pub validate_request_metadata :
    McpCodec → HttpRequest → RpcRequest → Result McpStop (Unit {0})
unfolding meta_of meta_string meta_is_object mismatch
validate_request_metadata codec r req = do
  hdr_version ← require_single_header r req.id (codes "MCP-Protocol-Version")
  hdr_method ← require_single_header r req.id (codes "Mcp-Method")
  guard (str_eq hdr_method req.method) (mismatch req.id)
  meta ← meta_of codec req.id req.params
  body_version ←
      require (meta_string codec meta meta_protocol_version)
        (rpc_error_status 400 req.id invalid_params)
  guard (meta_is_object codec meta meta_client_capabilities)
      (rpc_error_status 400 req.id invalid_params)
  guard (str_eq hdr_version body_version) (mismatch req.id)
  guard (str_eq body_version mcp_protocol_version)
      (rpc_error_status 400 req.id unsupported_protocol_version)

-- `strings.HasSuffix`
has_suffix : Str → Str → Bool
has_suffix s suffix =
    leb (length suffix) (length s) && str_eq (drop (length s - length suffix) s) suffix

pub data HeaderValue : Type 0 where
  decoded : Str → HeaderValue
  bad_base64 : HeaderValue
  panics : HeaderValue

from_base64 : Option Bytes → HeaderValue
from_base64 none = bad_base64
from_base64 (some raw) = decoded raw

-- `decodeHeaderValue`: slicing panics where the prefix and the suffix overlap.
slice_encoded : McpCodec → Str → HeaderValue
unfolding from_base64
slice_encoded codec v =
    if ltb (length v) 11
    then panics
    else from_base64 (codec.decode_base64 (take (length v - 11) (drop 9 v)))

is_prefixed : Option Str → Bool
is_prefixed none = false
is_prefixed (some rest) = true

unfoldable pub decode_header_value : McpCodec → Str → HeaderValue
unfolding slice_encoded has_suffix is_prefixed
decode_header_value codec v =
    if is_prefixed (after_prefix (codes "=?base64?") v) && has_suffix v (codes "?=")
    then slice_encoded codec v
    else decoded v
