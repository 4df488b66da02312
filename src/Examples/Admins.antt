-- ===== src/Examples/Admins.antt =====
-- The admin API over a server that understands one request, a Set of the tenant "acme".
use kroxy.Base.{
  sym, ◌∙◌, ◌≡◌, refl, arith, ℕ, zero, suc, Bool, true, ◌&&◌, Option, none, some, [], ◌∷◌, Bytes,
  codes, str_eq, str_eq_iff, if◌then◌else◌, Result, ok, err,
}
use kroxy.Admin.Client
use kroxy.Admin.Client.{Client}
use kroxy.Admin.Exchange.{IsRun, perform}
use kroxy.Admin.Refinement.{perform-direct}
use kroxy.Admin.Service
use kroxy.Admin.Service.{handle_set, registry, map_err, code_duplicate, tenant_of_params, Handler}
use kroxy.Admin.Types.{Params, set_params, delete_params, SetParams, DeleteParams, RpcResponse}
use kroxy.Examples.Logins.{one}
use kroxy.Resolver.Memory.{MemoryResolver, ResolverError, duplicate, set, list, lookup}

abbrev bind_set : Params → Option SetParams
bind_set (set_params p) = some p
bind_set _ = none

abbrev bind_delete : Params → Option DeleteParams
bind_delete (delete_params p) = some p
bind_delete _ = none

abbrev server : Service.Packages Params
server = record { bind_set = bind_set; bind_delete = bind_delete }

abbrev acme : SetParams
acme = record { id = codes "acme"; topic_prefix = codes "acme-"; upstream = codes "kafka:9092" }

abbrev is_acme : SetParams → Bool
is_acme p =
    str_eq p.id acme.id
    && str_eq p.topic_prefix acme.topic_prefix
    && str_eq p.upstream acme.upstream

abbrev marshal_params : Params → Option Bytes
marshal_params (set_params p) = if is_acme p then some [] else none
marshal_params _ = none

abbrev respond :
    MemoryResolver → Result ResolverError MemoryResolver → MemoryResolver × Option (ℕ × Bytes)
respond r (ok r') = (r', some (200, 0 ∷ []))
respond r (err e) = (r, some (200, 1 ∷ []))

abbrev response_of : Bytes → Option RpcResponse
response_of (zero ∷ []) = some (record { result = 0 ∷ []; error = none })
response_of (suc n ∷ []) =
    some (record { result = []; error = some (record { code = code_duplicate }) })
response_of _ = none

abbrev client_side : Client.Packages MemoryResolver
client_side = record {
  marshal = λ q. if str_eq q.method (codes "Tenants.Set") then marshal_params q.params else none;
  is_endpoint = λ s. true;
  post = λ endpoint body r. respond r (set r (tenant_of_params acme));
  decode_response = response_of;
  decode_ok = λ raw. some (record { is_ok = true });
  decode_list = λ raw. none;
}

abbrev is_text : Bytes → Bool
is_text s = true

is_acme-eq : (p : SetParams) → is_acme p ≡ true → p ≡ acme
is_acme-eq p h = ground (
  arith,
  str_eq_iff p.id acme.id,
  str_eq_iff p.topic_prefix acme.topic_prefix,
  str_eq_iff p.upstream acme.upstream,
)

registry_set : registry server (codes "Tenants") (codes "Set") ≡ some (handle_set server)
unfolding registry str_eq
registry_set = refl

-- The tenant "acme" has another prefix in the catalogue, and is refused as a duplicate.
abbrev client : Client
client = record { endpoint = codes "http://127.0.0.1:9095/rpc"; id = 0 }

refused : client_side.post client.endpoint [] one ≡ (one, some (200, 1 ∷ []))
unfolding set lookup str_eq
refused = refl

the_handler :
    (h : Handler Params)
    → registry server (codes "Tenants") (codes "Set") ≡ some h
    → handle_set server ≡ h
the_handler h reg = let found : some (handle_set server) ≡ some h = sym registry_set ∙ reg in cc

handled : handle_set server one (set_params acme) ≡ (one, err (map_err duplicate))
unfolding handle_set set lookup str_eq
handled = refl

refused-IsRun : IsRun server client_side is_text (set_params acme) one one (1 ∷ [])
refused-IsRun = record {
  params = set_params acme;
  response = record { result = []; error = some (record { code = code_duplicate }) };
  carries = refl;
  decoded = refl;
  moved = λ h reg. rw (← the_handler h reg, handled) refl;
  answered = λ h reg. rw (← the_handler h reg, handled) (unfold map_err in refl);
}

perform-direct_example :
    perform server client_side is_text (set_params acme) client one
    ≡ (record { endpoint = client.endpoint; id = 1 }, one, err (Client.resolver_error duplicate))
unfolding list set lookup str_eq
perform-direct_example =
    perform-direct server client_side is_text (set_params acme) client one one [] (1 ∷ [])
      refused-IsRun ((refl, refl, refl), tt) refl refl refused
