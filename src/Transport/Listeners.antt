-- ===== src/Transport/Listeners.antt =====
-- Both listeners in front of one proxy.
use kessa.Base.{List, [], ◌∷◌, Result, ok, err}
use kessa.Base.Int.{ℤ}
use kessa.Audit.Data.{Entry}
use kessa.Enforce.{Proxy}
use kessa.Enforce.Handle.{handle}
use kessa.Enforce.Handle.History.{Reaches, start, request}
use kessa.Enforce.WriteAhead.{Disk}
use kessa.Env.{Env}
use kessa.Errors.{Error}
use kessa.Transport.Http
use kessa.Transport.Http.{HttpCodec, HttpReply, serve}
use kessa.Transport.Http.Answers
use kessa.Transport.Http.Answers.{IsServed, serve-IsServed}
use kessa.Transport.Ingress.{HttpRequest}
use kessa.Transport.Mcp.{McpCodec, McpReply}
use kessa.Transport.Mcp.Server
use kessa.Transport.Mcp.Server.{serve_mcp}
use kessa.Transport.Mcp.Server.Agreement
use kessa.Transport.Mcp.Server.Agreement.{IsAnswer, serve_mcp-IsAnswer}
use kessa.Types.{Decision}
use kessa.Web.{Net}

-- A message at one of the listeners, the clock when it arrives, and what the disk does.
pub data Arrival : Type 0 where
  over_http over_mcp : HttpRequest → ℤ → Disk → Arrival

module _ (env : Env) (net : Net) (http : HttpCodec) (mcp : McpCodec) where
  receive : Proxy → Arrival → Proxy
  receive p (over_http r now disk) = (serve env net http p r now disk).0
  receive p (over_mcp r now disk) = (serve_mcp env net mcp p r now disk).0

  -- The proxy after the messages that arrive at either listener, in whatever order.
  unfoldable pub listen : Proxy → List Arrival → Proxy
  unfolding receive
  listen p [] = p
  listen p (a ∷ arrivals) = listen (receive p a) arrivals

  module _ (p : Proxy) where
    IsServed-Reaches :
        (q : Proxy) (r : HttpRequest) (now : ℤ) (disk : Disk) (out : Proxy × HttpReply)
        → Reaches env p q
        → IsServed env net http q r now disk out
        → Reaches env p out.0
    unfolding Http.reply_to
    IsServed-Reaches q r now disk out before (Answers.unchanged reply n) = before
    IsServed-Reaches q r now disk out before (Answers.handled req path method passed e) =
        by_result (handle env q req now disk) (request before req now disk)
      where
        by_result :
            (x : Proxy × Result Error (Decision × Entry))
            → Reaches env p x.0
            → Reaches env p ((Http.reply_to x).0)
        by_result (q', ok out) h = h
        by_result (q', err x) h = h

    IsAnswer-Reaches :
        (q : Proxy) (r : HttpRequest) (now : ℤ) (disk : Disk) (out : Proxy × McpReply)
        → Reaches env p q
        → IsAnswer env net mcp q r now disk out
        → Reaches env p out.0
    unfolding Server.reply_to
    IsAnswer-Reaches q r now disk out before (Agreement.unchanged reply n) = before
    IsAnswer-Reaches q r now disk out before (Agreement.handled er id agreed) =
        by_result (handle env q er now disk) (request before er now disk)
      where
        by_result :
            (x : Proxy × Result Error (Decision × Entry))
            → Reaches env p x.0
            → Reaches env p ((Server.reply_to mcp id x).0)
        by_result (q', ok out) h = h
        by_result (q', err x) h = h

    listen-from :
        (arrivals : List Arrival) (q : Proxy) → Reaches env p q → Reaches env p (listen q arrivals)
    unfolding listen receive
    listen-from [] q before = before
    listen-from (over_http r now disk ∷ arrivals) q before =
        listen-from arrivals _
          (IsServed-Reaches q r now disk _ before (serve-IsServed env net http q r now disk))
    listen-from (over_mcp r now disk ∷ arrivals) q before =
        listen-from arrivals _
          (IsAnswer-Reaches q r now disk _ before (serve_mcp-IsAnswer env net mcp q r now disk))

    -- The two listeners refine the chokepoint: whatever HTTP and MCP messages arrive, in whatever
    -- order, the proxy is in a state that the chokepoint reaches from its start by handling
    -- requests.
    pub listen-Reaches : (arrivals : List Arrival) → Reaches env p (listen p arrivals)
    listen-Reaches arrivals = listen-from arrivals p start
