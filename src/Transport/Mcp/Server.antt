-- ===== src/Transport/Mcp/Server.antt =====
-- internal/enforce/mcp.go: the tools, the dispatch of methods, and the endpoint.
pub mod Agreement
use kessa.Base.{
  ℕ, suc, ltb, leb, ◌+◌, ◌-◌, ◌==◌, Bytes, Str, codes, str_eq, is_empty, length, take, drop,
  trim_space, Bool, true, false, not, ◌&&◌, ◌||◌, Option, none, some, List, [], ◌∷◌, Result, ok,
  err, ◌>>=◌, ◌>>◌, guard, require, if◌then◌else◌,
}
use kessa.Base.Dict.{Dict, lookup}
use kessa.Base.Int.{ℤ, negsuc}
use kessa.Audit.{tip}
use kessa.Audit.Data.{Entry}
use kessa.Enforce.{Proxy, Request}
use kessa.Enforce.Handle.{handle}
use kessa.Enforce.WriteAhead.{Disk}
use kessa.Env.{Env}
use kessa.Errors.{Error}
use kessa.Transport.Ingress.{
  HttpRequest, Header, absent, single, duplicated, origin_allowed, has_json_content_type,
  single_header, max_request_body,
}
use kessa.Types.{Decision}
use kessa.Web.{Net, starts_with, after_prefix}
use kessa.Transport.Mcp.{
  mcp_protocol_version, tool_tip, tool_enforce, RpcCode, parse_error, invalid_request,
  method_not_found, invalid_params, internal_error, header_mismatch, RpcRequest, ToolCall, McpCodec,
  Payload, of_tip, of_decision, McpStop, McpReply, stopped, http_error, accepted, aborted,
  rpc_error, pong, tools, tool_result, tool_error, rpc_error_status, mismatch,
  require_single_header, validate_request_metadata, HeaderValue, decoded, bad_base64, panics,
  decode_header_value,
}

name_of : Bytes → HeaderValue → Result McpStop Str
unfolding mismatch
name_of id (decoded s) = ok s
name_of id bad_base64 = err (mismatch id)
name_of id panics = err aborted

-- The tool that `handleToolsCall` runs: the one that the header and the body name.
unfoldable pub tool_call : McpCodec → HttpRequest → RpcRequest → Result McpStop ToolCall
unfolding name_of mismatch
tool_call codec r req = do
  call ← require (codec.decode_call req.params) (rpc_error_status 200 req.id invalid_params)
  h ← require_single_header r req.id (codes "Mcp-Name")
  name ← name_of req.id (decode_header_value codec h)
  guard (str_eq name call.name) (mismatch req.id)
  ok call

-- `writeToolResult`
write_tool_result : Bytes → Payload → Option Bytes → McpReply
write_tool_result id payload none = stopped (rpc_error_status 200 id internal_error)
write_tool_result id payload (some text) = tool_result id text payload

unfoldable pub reply_to :
    McpCodec → Bytes → Proxy × Result Error (Decision × Entry) → Proxy × McpReply
unfolding write_tool_result
reply_to codec id (p, ok out) =
    (p, write_tool_result id (of_decision out) (codec.marshal_result out))
reply_to codec id (p, err x) = (p, tool_error id x)

enforce_arguments : Env → McpCodec → Proxy → Bytes → ℤ → Disk → Option Request → Proxy × McpReply
unfolding reply_to
enforce_arguments env codec p id now disk none =
    (p, stopped (rpc_error_status 200 id invalid_params))
enforce_arguments env codec p id now disk (some req) = reply_to codec id (handle env p req now disk)

run_tool : Env → McpCodec → Proxy → Bytes → ℤ → Disk → Result McpStop ToolCall → Proxy × McpReply
unfolding enforce_arguments write_tool_result
run_tool env codec p id now disk (err stop) = (p, stopped stop)
run_tool env codec p id now disk (ok call) =
    if str_eq call.name tool_tip
    then (p, write_tool_result id (of_tip (tip p.log)) (codec.marshal_tip (tip p.log)))
    else if str_eq call.name tool_enforce
    then enforce_arguments env codec p id now disk (codec.decode_request call.arguments)
    else (p, stopped (rpc_error_status 200 id invalid_params))

-- `dispatch`
unfoldable pub dispatch :
    Env → McpCodec → Proxy → HttpRequest → RpcRequest → ℤ → Disk → Proxy × McpReply
unfolding run_tool
dispatch env codec p r req now disk =
    if str_eq req.method (codes "ping")
    then (p, pong req.id)
    else if str_eq req.method (codes "tools/list")
    then (p, tools req.id (tool_tip ∷ tool_enforce ∷ []))
    else if str_eq req.method (codes "tools/call")
    then run_tool env codec p req.id now disk (tool_call codec r req)
    else (p, stopped (rpc_error_status 404 req.id method_not_found))

-- `handlePost`, up to the dispatch.
unfoldable pub accept_post : Net → McpCodec → HttpRequest → Result McpStop RpcRequest
accept_post net codec r = do
  guard (has_json_content_type net r) (http_error 415)
  guard (leb (length r.body) max_request_body) (http_error 413)
  guard (not (starts_with b'[' (trim_space r.body))) (rpc_error_status 200 [] invalid_request)
  req ← require (codec.decode_rpc (trim_space r.body)) (rpc_error_status 200 [] parse_error)
  guard (str_eq req.jsonrpc (codes "2.0")) (rpc_error_status 200 req.id invalid_request)
  guard (not (str_eq (trim_space req.id) (codes "null"))) (rpc_error_status 400 [] invalid_request)
  guard (not (is_empty req.id)) accepted
  validate_request_metadata codec r req
  ok req

handle_post :
    Env → McpCodec → Proxy → HttpRequest → ℤ → Disk → Result McpStop RpcRequest → Proxy × McpReply
handle_post env codec p r now disk (err stop) = (p, stopped stop)
handle_post env codec p r now disk (ok req) = dispatch env codec p r req now disk

-- `mcpServer.ServeHTTP`
unfoldable pub serve_mcp : Env → Net → McpCodec → Proxy → HttpRequest → ℤ → Disk → Proxy × McpReply
unfolding handle_post
serve_mcp env net codec p r now disk =
    if not (origin_allowed net r)
    then (p, stopped (http_error 403))
    else if str_eq r.method (codes "POST")
    then handle_post env codec p r now disk (accept_post net codec r)
    else (p, stopped (http_error 405))
