-- ===== src/Transport/Mcp/Server/Agreement.antt =====
-- What an answer of the MCP endpoint that carries a decision says of the request.
use kessa.Base.{
  ℕ, ◌≡◌, refl, ap, ◌∙◌, subst, Bytes, Str, codes, str_eq, str_eq_iff, leb, length, is_empty, true,
  not, Option, none, some, Result, ok, err, if_cases, guard, require, >>=-eq-ok, >>-eq-ok,
  guard-eq-ok, require-eq-ok, ok_inj, arith, trim_space,
}
use kessa.Base.Int.{ℤ}
use kessa.Audit.Data.{Entry}
use kessa.Enforce.{Proxy, Request}
use kessa.Enforce.Handle.{handle}
use kessa.Enforce.WriteAhead.{Disk}
use kessa.Env.{Env}
use kessa.Transport.Ingress.{
  HttpRequest, Header, absent, single, duplicated, origin_allowed, has_json_content_type,
  single_header, max_request_body,
}
use kessa.Transport.Mcp.{
  RpcRequest, ToolCall, McpCodec, of_tip, of_decision, McpReply, McpStop, accepted, stopped,
  http_error, tool_result, mismatch, demand_single, require_single_header, mcp_protocol_version,
  tool_enforce, tool_tip, meta_protocol_version, meta_string, meta_of, validate_request_metadata,
  decode_header_value, decoded, HeaderValue, bad_base64, panics,
}
use kessa.Transport.Mcp.Server.{
  name_of, tool_call, write_tool_result, reply_to, enforce_arguments, run_tool, dispatch,
  accept_post, handle_post, serve_mcp,
}
use kessa.Types.{Decision}
use kessa.Web.{Net}

-- The reply says that the entry was logged.
abbrev pub IsDecision : McpReply → Decision × Entry → Type 0
IsDecision (tool_result id text (of_decision d)) out = d ≡ out
IsDecision _ out = ⊥

-- Header and body name one method, one version and one tool, each header once, and the tool is the
-- chokepoint.
pub record IsAgreed (net : Net) (codec : McpCodec) (r : HttpRequest) (er : Request) : Type 0 where
  pub req : RpcRequest
  pub call : ToolCall
  pub name : Str
  pub local : origin_allowed net r ≡ true
  pub taken : accept_post net codec r ≡ ok req
  pub parsed : codec.decode_rpc (trim_space r.body) ≡ some req
  pub small : leb (length r.body) max_request_body ≡ true
  pub method : single_header r (codes "Mcp-Method") ≡ single (codes "tools/call")
  pub body_method : req.method ≡ codes "tools/call"
  pub version : single_header r (codes "MCP-Protocol-Version") ≡ single mcp_protocol_version
  pub called : codec.decode_call req.params ≡ some call
  pub named : single_header r (codes "Mcp-Name") ≡ single name
  pub tool : decode_header_value codec name ≡ decoded tool_enforce
  pub body_tool : call.name ≡ tool_enforce
  pub arguments : codec.decode_request call.arguments ≡ some er

module _ (net : Net) (codec : McpCodec) (r : HttpRequest) (req : RpcRequest) where
  require_single_header-eq-ok :
      (id : Bytes) (name v : Str)
      → require_single_header r id name ≡ ok v
      → single_header r name ≡ single v
  unfolding require_single_header
  require_single_header-eq-ok id name v h = by_header (single_header r name) h
    where
      by_header : (x : Header) → demand_single id x ≡ ok v → x ≡ single v
      by_header absent h = cc
      by_header duplicated h = cc
      by_header (single w) h = ap single (ok_inj h)

  validate_request_metadata-eq-ok :
      validate_request_metadata codec r req ≡ ok tt
      → (single_header r (codes "Mcp-Method") ≡ single req.method)
        × (single_header r (codes "MCP-Protocol-Version") ≡ single mcp_protocol_version)
  unfolding validate_request_metadata
  validate_request_metadata-eq-ok h =
      let (hv, v, h1) =
        >>=-eq-ok (require_single_header r req.id (codes "MCP-Protocol-Version")) _ h in
      let (hm, m, h2) = >>=-eq-ok (require_single_header r req.id (codes "Mcp-Method")) _ h1 in
      let (same, h3) = >>-eq-ok (guard (str_eq hm req.method) (mismatch req.id)) _ h2 in
      let (meta, _, h4) = >>=-eq-ok (meta_of codec req.id req.params) _ h3 in
      let (bv, _, h5) = >>=-eq-ok (require (meta_string codec meta meta_protocol_version) _) _ h4 in
      let (_, h6) = >>-eq-ok _ _ h5 in
      let (agreed, supported) = >>-eq-ok (guard (str_eq hv bv) (mismatch req.id)) _ h6 in
      let method : hm ≡ req.method = (str_eq_iff hm req.method).0 (guard-eq-ok _ _ same) in
      let version : hv ≡ mcp_protocol_version =
        (str_eq_iff hv bv).0 (guard-eq-ok _ _ agreed)
        ∙ (str_eq_iff bv mcp_protocol_version).0 (guard-eq-ok _ _ supported) in
      (
        require_single_header-eq-ok req.id (codes "Mcp-Method") hm m ∙ ap single method,
        require_single_header-eq-ok req.id (codes "MCP-Protocol-Version") hv v ∙ ap single version,
      )

  name_of-eq-ok : (id : Bytes) (v : HeaderValue) (s : Str) → name_of id v ≡ ok s → v ≡ decoded s
  unfolding name_of
  name_of-eq-ok id (decoded t) s h = ap decoded (ok_inj h)
  name_of-eq-ok id bad_base64 s h = cc
  name_of-eq-ok id panics s h = cc

  tool_call-eq-ok :
      (call : ToolCall)
      → tool_call codec r req ≡ ok call
      → (codec.decode_call req.params ≡ some call)
        × ((name : Str) × (single_header r (codes "Mcp-Name") ≡ single name)
            × (decode_header_value codec name ≡ decoded call.name))
  unfolding tool_call
  tool_call-eq-ok call h =
      let (c, decoded_as, h1) = >>=-eq-ok (require (codec.decode_call req.params) _) _ h in
      let (v, header, h2) = >>=-eq-ok (require_single_header r req.id (codes "Mcp-Name")) _ h1 in
      let (s, named, h3) = >>=-eq-ok (name_of req.id (decode_header_value codec v)) _ h2 in
      let (same, made) = >>-eq-ok (guard (str_eq s c.name) (mismatch req.id)) _ h3 in
      let is : c ≡ call = ok_inj made in
      let name : s ≡ c.name = (str_eq_iff s c.name).0 (guard-eq-ok _ _ same) in
      (
        require-eq-ok _ _ decoded_as ∙ ap some is,
        (
          v,
          require_single_header-eq-ok req.id (codes "Mcp-Name") v header,
          name_of-eq-ok req.id _ s named ∙ ap decoded (name ∙ ap (λ x. x.name) is),
        ),
      )

  accept_post-eq-ok :
      accept_post net codec r ≡ ok req
      → (codec.decode_rpc (trim_space r.body) ≡ some req)
        × (leb (length r.body) max_request_body ≡ true)
        × (validate_request_metadata codec r req ≡ ok tt)
  unfolding accept_post
  accept_post-eq-ok h =
      let (_, h1) = >>-eq-ok (guard (has_json_content_type net r) (http_error 415)) _ h in
      let (small, h2) =
        >>-eq-ok (guard (leb (length r.body) max_request_body) (http_error 413)) _ h1 in
      let (_, h3) = >>-eq-ok _ _ h2 in
      let (q, parsed, h4) = >>=-eq-ok (require (codec.decode_rpc (trim_space r.body)) _) _ h3 in
      let (_, h5) = >>-eq-ok (guard (str_eq q.jsonrpc (codes "2.0")) _) _ h4 in
      let (_, h6) = >>-eq-ok (guard (not (str_eq (trim_space q.id) (codes "null"))) _) _ h5 in
      let (_, h7) = >>-eq-ok (guard (not (is_empty q.id)) accepted) _ h6 in
      let (checked, made) = >>-eq-ok (validate_request_metadata codec r q) _ h7 in
      let same : q ≡ req = ok_inj made in
      (
        require-eq-ok _ _ parsed ∙ ap some same,
        guard-eq-ok _ _ small,
        subst (λ x. validate_request_metadata codec r x ≡ ok tt) same checked,
      )

-- Either nothing happened, or the chokepoint handled the request that header and body agree on.
pub data IsAnswer (env : Env) (net : Net) (codec : McpCodec) (p : Proxy) (r : HttpRequest) (now : ℤ)
    (disk : Disk) : Proxy × McpReply → Type 0 where
  unchanged :
      (reply : McpReply)
      → ((out : Decision × Entry) → IsDecision reply out → ⊥)
      → IsAnswer env net codec p r now disk (p, reply)
  handled :
      (er : Request) (id : Bytes)
      → IsAgreed net codec r er
      → IsAnswer env net codec p r now disk (reply_to codec id (handle env p er now disk))

module _ (env : Env) (net : Net) (codec : McpCodec) (p : Proxy) (r : HttpRequest) (now : ℤ)
    (disk : Disk) where
  abbrev Answers : Proxy × McpReply → Type 0
  Answers = IsAnswer env net codec p r now disk

  stop : (s : McpStop) → Answers (p, stopped s)
  stop s = unchanged (stopped s) (λ out h. h)

  tip_result :
      (id : Bytes) (t : ℕ × Bytes) (o : Option Bytes)
      → Answers (p, write_tool_result id (of_tip t) o)
  unfolding write_tool_result
  tip_result id t none = stop _
  tip_result id t (some text) = unchanged _ (λ out h. h)

  enforce_call :
      (req : RpcRequest) (call : ToolCall)
      → origin_allowed net r ≡ true
      → accept_post net codec r ≡ ok req
      → req.method ≡ codes "tools/call"
      → tool_call codec r req ≡ ok call
      → call.name ≡ tool_enforce
      → (o : Option Request) → codec.decode_request call.arguments ≡ o
      → Answers (enforce_arguments env codec p req.id now disk o)
  unfolding enforce_arguments
  enforce_call req call local taken method agreed tool none e = stop _
  enforce_call req call local taken method agreed tool (some er) e =
      let (parsed, small, checked) = accept_post-eq-ok net codec r req taken in
      let (header, version) = validate_request_metadata-eq-ok net codec r req checked in
      let (called, (name, named, same)) = tool_call-eq-ok net codec r req call agreed in
      handled er req.id (record {
        req = req;
        call = call;
        name = name;
        local = local;
        taken = taken;
        parsed = parsed;
        small = small;
        method = header ∙ ap single method;
        body_method = method;
        version = version;
        called = called;
        named = named;
        tool = same ∙ ap decoded tool;
        body_tool = tool;
        arguments = e;
      })

  run_tool-IsAnswer :
      (req : RpcRequest) (m : Result McpStop ToolCall)
      → origin_allowed net r ≡ true
      → accept_post net codec r ≡ ok req
      → req.method ≡ codes "tools/call"
      → tool_call codec r req ≡ m
      → Answers (run_tool env codec p req.id now disk m)
  unfolding run_tool
  run_tool-IsAnswer req (err s) local taken method e = stop s
  run_tool-IsAnswer req (ok call) local taken method e =
      if_cases Answers (str_eq call.name tool_tip) (λ _. tip_result req.id _ _)
        (λ _.
          if_cases Answers (str_eq call.name tool_enforce)
            (λ t.
              enforce_call req call local taken method e ((str_eq_iff call.name tool_enforce).0 t) _
                refl)
            (λ _. stop _))

  dispatch-IsAnswer :
      (req : RpcRequest)
      → origin_allowed net r ≡ true
      → accept_post net codec r ≡ ok req
      → Answers (dispatch env codec p r req now disk)
  unfolding dispatch
  dispatch-IsAnswer req local taken =
      if_cases Answers (str_eq req.method (codes "ping")) (λ _. unchanged _ (λ out h. h))
        (λ _.
          if_cases Answers (str_eq req.method (codes "tools/list")) (λ _. unchanged _ (λ out h. h))
            (λ _.
              if_cases Answers (str_eq req.method (codes "tools/call"))
                (λ t.
                  run_tool-IsAnswer req _ local taken
                    ((str_eq_iff req.method (codes "tools/call")).0 t) refl)
                (λ _. stop _)))

  handle_post-IsAnswer :
      (m : Result McpStop RpcRequest)
      → origin_allowed net r ≡ true
      → accept_post net codec r ≡ m
      → Answers (handle_post env codec p r now disk m)
  unfolding handle_post
  handle_post-IsAnswer (err s) local e = stop s
  handle_post-IsAnswer (ok req) local e = dispatch-IsAnswer req local e

  -- An answer of the MCP endpoint leaves the proxy as it was and carries no decision, or it is what
  -- the chokepoint makes of a request on which the headers and the body agree: the origin is local,
  -- the body is within its bound, the method, the protocol version and the tool are named by
  -- exactly one header each, the decoded tool name is that of the body, and the arguments of the
  -- call are the request.
  pub serve_mcp-IsAnswer :
      IsAnswer env net codec p r now disk (serve_mcp env net codec p r now disk)
  unfolding serve_mcp
  serve_mcp-IsAnswer =
      if_cases Answers (not (origin_allowed net r)) (λ _. stop _)
        (λ refused.
          let local : origin_allowed net r ≡ true = ground arith in
          if_cases Answers (str_eq r.method (codes "POST"))
            (λ _. handle_post-IsAnswer (accept_post net codec r) local refl) (λ _. stop _))
