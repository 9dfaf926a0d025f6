-- ===== src/Proxy/Dubbo/Handle.antt =====
-- protocol/dubbo/proxy/dubbo_proxy_ouput.go: Handle, where each dubbo request comes in.
use mesher.Prelude.{[], ◌++◌, Option, none, some, ◌⊎◌, inl, inr, if◌then◌else◌}
use mesher.Prelude.Text.{Text, codes, is_empty, text_eq}
use mesher.Prelude.Go.{Go, ret, panic, ◌>>=◌}
use mesher.Message.{Request, get_attachment, set_attachment, path_key}
use mesher.Cmd.{set_local_dubbo_address}
use mesher.Schema.Cache.{MicroService}
use mesher.Proxy.{chain_consumer_outgoing, chain_provider_incoming}
use mesher.Proxy.Dubbo.{
  InvokeContext, Services, proxy_tag, DubboInvocation, DubboChain, DubboAnswer,
  handle_dubbo_request,
}
use mesher.Proxy.Dubbo.Rest.{proxy_rest_handler}

abbrev pub dubbo : Text
dubbo = codes "dubbo"

-- `SetAttachment` on the request
abbrev pub attach : Text → Text → Request → Request
attach key value r = record r { invocation = set_attachment r.invocation key value }

module _ (s : Services) where
  -- After the chain: the context has the request that the invocation's arguments point to, with what
  -- the chain changed in it.
  abbrev pub dubbo_called :
      InvokeContext
      → DubboInvocation × Option (Option DubboAnswer)
      → Go (Option Text × InvokeContext)
  dubbo_called ctx (inv, none) = ret (none, record ctx { req = inv.args })
  dubbo_called ctx (inv, some ir) =
      handle_dubbo_request inv (record ctx { req = inv.args }) ir >>= λ ctx'. ret (none, ctx')

  -- The chain works on the invocation, of which the arguments are the request of the context.
  abbrev pub dubbo_chain :
      DubboInvocation → Text ⊎ DubboChain → InvokeContext → Go (Option Text × InvokeContext)
  dubbo_chain inv (inl message) ctx = ret (some message, ctx)
  dubbo_chain inv (inr chain) ctx = dubbo_called ctx (chain (record inv { args = ctx.req }))

  -- Without the tag, the request comes from the service of this mesher, else from another mesher. A nil
  -- chain is called outside of the mode of a sidecar.
  abbrev pub dubbo_handled :
      DubboInvocation → Text → InvokeContext → Go (Option Text × InvokeContext)
  dubbo_handled inv tag ctx =
      if is_empty tag
      then (let ctx' = record ctx {
        req =
            attach proxy_tag (codes "true")
              (attach s.header_source_name s.self_service_name ctx.req);
      } in
          if s.is_sidecar
          then dubbo_chain inv (s.get_chain s.consumer chain_consumer_outgoing) ctx'
          else panic)
      else (let ctx' = record ctx { req = attach proxy_tag [] ctx.req } in
          dubbo_chain inv (s.get_chain s.provider chain_provider_incoming) ctx')

  -- The invocation; the error of SetLocalServiceAddress is dropped.
  abbrev pub dubbo_invocation : InvokeContext → MicroService → Text → DubboInvocation
  dubbo_invocation ctx svc protocol = record {
    args = ctx.req;
    source_micro_service = get_attachment ctx.req.invocation s.header_source_name [];
    micro_service_name = svc.service_name;
    version = svc.version;
    app_id = svc.app_id;
    protocol = protocol;
    endpoint = (set_local_dubbo_address s.ports_map protocol svc.service_name []).0;
  }

  abbrev pub svc_found :
      InvokeContext → Text → Option MicroService → Go (Option Text × InvokeContext)
  svc_found ctx name none = ret (some (codes "can't find the svc by " ++ name), ctx)
  svc_found ctx name (some svc) =
      let tag = get_attachment ctx.req.invocation proxy_tag [] in
      let protocol = if is_empty tag then s.get_support_proto svc else dubbo in
      if text_eq protocol dubbo
      then dubbo_handled (dubbo_invocation ctx svc protocol) tag ctx
      else proxy_rest_handler s ctx

  -- `Handle`: the message of an error, and the context.
  unfoldable pub handle : InvokeContext → Go (Option Text × InvokeContext)
  unfolding handle_dubbo_request proxy_rest_handler set_attachment get_attachment
      set_local_dubbo_address
  handle ctx =
      let name = get_attachment ctx.req.invocation path_key [] in
      svc_found ctx name (s.get_svc name)
