-- ===== src/Examples/Messages.antt =====
-- Requests at the two listeners.
use kessa.Base.{
  ◌≡◌, ◌↔◌, refl, ap, Str, codes, true, none, some, [], ◌∷◌, ◌++◌, ok, err, Option, Result,
}
use kessa.Base.Int.{pos}
use kessa.Audit.Data.{Entry}
use kessa.Enforce.Handle.{handle}
use kessa.Enforce.Handle.History.{Reaches}
use kessa.Enforce.WriteAhead.{persists}
use kessa.Errors.{Error}
use kessa.Examples.Requests.{fresh, posting}
use kessa.Examples.World.{world}
use kessa.Transport.Http.{HttpCodec, value, serve}
use kessa.Transport.Http.Answers.{IsServed, serve-IsServed}
use kessa.Transport.Http.Client.{WireCodec, ReadsMessages, of_handle, on_wire, submit, submit-serve}
use kessa.Transport.Ingress.{HttpRequest}
use kessa.Transport.Listeners.{over_http, over_mcp, listen, listen-Reaches}
use kessa.Transport.Mcp.{McpCodec, panics, decoded, decode_header_value, tool_enforce}
use kessa.Transport.Mcp.Names.{decode_header_value-encoded}
use kessa.Transport.Mcp.Server.{serve_mcp}
use kessa.Transport.Mcp.Server.Agreement.{IsAnswer, serve_mcp-IsAnswer}
use kessa.Types.{Decision}
use kessa.Web.{Net}

abbrev plain_net : Net
plain_net = record {
  parse_url = λ s. none;
  parse_addr = λ s. none;
  parse_ip = λ s. none;
  parse_media_type = λ s. some s;
}

-- A body stands for the one request.
abbrev http : HttpCodec
http = record { decode_request = λ b. value posting; encode_export = λ e. some (codes "export") }

abbrev mcp : McpCodec
mcp = record {
  decode_rpc = λ b. some (record {
    jsonrpc = codes "2.0";
    id = codes "1";
    method = codes "tools/call";
    params = codes "{}";
  });
  decode_meta = λ b. some (
      (codes "io.modelcontextprotocol/protocolVersion", codes "2026-07-28")
      ∷ (codes "io.modelcontextprotocol/clientCapabilities", codes "{}")
      ∷ []);
  decode_string = λ b. some b;
  is_object = λ b. true;
  decode_call = λ b. some (record { name = tool_enforce; arguments = codes "{}" });
  decode_request = λ b. some posting;
  marshal_tip = λ t. some (codes "tip");
  marshal_result = λ r. some (codes "result");
  decode_base64 = λ s. some s;
}

abbrev json : Str × Str
json = (codes "Content-Type", codes "application/json")

abbrev enforce_post : HttpRequest
enforce_post = record {
  method = codes "POST";
  path = codes "/enforce";
  headers = json ∷ [];
  body = codes "{}";
}

abbrev tool_post : HttpRequest
tool_post = record {
  method = codes "POST";
  path = codes "/";
  headers =
      json
      ∷ (codes "MCP-Protocol-Version", codes "2026-07-28")
      ∷ (codes "Mcp-Method", codes "tools/call")
      ∷ (codes "mcp-name", codes "=?base64?kessa/enforce?=")
      ∷ [];
  body = codes "{}";
}

listen-Reaches_example : Reaches world fresh (
    listen world plain_net http mcp fresh
      (over_http enforce_post (pos 9) persists ∷ over_mcp tool_post (pos 9) persists ∷ []))
listen-Reaches_example =
    listen-Reaches world plain_net http mcp fresh
      (over_http enforce_post (pos 9) persists ∷ over_mcp tool_post (pos 9) persists ∷ [])

serve_mcp-IsAnswer_example :
    IsAnswer world plain_net mcp fresh tool_post
      (pos 9)
      persists
      (serve_mcp world plain_net mcp fresh tool_post (pos 9) persists)
serve_mcp-IsAnswer_example = serve_mcp-IsAnswer world plain_net mcp fresh tool_post (pos 9) persists

serve-IsServed_example :
    IsServed world plain_net http fresh enforce_post
      (pos 9)
      persists
      (serve world plain_net http fresh enforce_post (pos 9) persists)
serve-IsServed_example = serve-IsServed world plain_net http fresh enforce_post (pos 9) persists

decode_header_value-encoded_example :
    ((decode_header_value mcp (codes "=?base64?=") ≡ panics)
      ↔ (codes "=?base64?=" ≡ codes "=?base64?="))
    × ((enc name : Str)
        → mcp.decode_base64 enc ≡ some name
        → decode_header_value mcp (codes "=?base64?" ++ (enc ++ codes "?=")) ≡ decoded name)
decode_header_value-encoded_example = decode_header_value-encoded mcp (codes "=?base64?=")

abbrev result_of : Result Error (Decision × Entry) → Option (Decision × Entry)
result_of (ok out) = some out
result_of (err x) = none

-- A body stands for the one result.
abbrev wire : WireCodec
wire = record {
  encode_request = λ r. some (codes "request");
  encode_result = λ r. codes "result";
  decode_result = λ b. result_of (handle world fresh posting (pos 9) persists).1;
  encode_tip = λ t. codes "tip";
  decode_tip = λ b. none;
  error_text = λ x. codes "error";
}

abbrev read_messages :
    ReadsMessages plain_net http wire posting (handle world fresh posting (pos 9) persists).1
read_messages = record {
  media = refl;
  body = codes "request";
  encoded = refl;
  small = refl;
  requests = refl;
  results = λ out h. ap result_of h;
}

submit-serve_example :
    submit wire
      (λ r. some (on_wire wire ((serve world plain_net http fresh r (pos 9) persists).1)))
      posting
    ≡ of_handle wire (handle world fresh posting (pos 9) persists).1
submit-serve_example =
    submit-serve world plain_net http wire fresh posting (pos 9) persists read_messages
