-- ===== src/ResourceAdmin/Tests.antt =====
-- The administration at a concrete server with a gateway and a downstream resource.
use authserver.Common.{String, true, false, List, [], ◌∷◌, none, some, refl, ◌≡◌, is_empty}
use authserver.Domain.Resources.{Resource, mint}
use authserver.Domain.FrontingLinks.{FrontingLink}
use authserver.Store.Monad.{World}
use authserver.Token.Examples.{env, world}
use authserver.Fronting.Sound.{InOrder, no_links-Sound}
use authserver.Fronting.Kept.{creates}
use authserver.ResourceAdmin.Service.{ResourceAdminService, ResourcePatch}
use authserver.ResourceAdmin.Administered.{Request, on_links, patches, serve_all, serve_all-InOrder}

abbrev service : ResourceAdminService
service = record { env = env; has_fronting = true; parse_uri = λ s. none }

abbrev resource : String → String → Resource
resource id slug = record {
  id = id;
  slug = slug;
  display_name = slug;
  uri = "";
  backend_kind = mint;
  broker_provider_id = "";
  scopes = record { name = "read"; description = ""; upstream = "" } ∷ [];
  policy = record {
    exchange = record { allowed_client_ids = [] };
    runtime = record { client_ids = [] };
    connect = record { allowed_return_urls = [] };
  };
  created_at = 0;
  updated_at = 0;
}

abbrev registered : World
registered = record world { resources = resource "1" "gateway" ∷ resource "2" "tools" ∷ [] }

abbrev link : FrontingLink
link = record {
  source_slug = "gateway";
  target_slug = "tools";
  scope_map = record { source = "read"; targets = "read" ∷ [] } ∷ [];
  created_at = 0;
  created_by = "";
}

-- Takes every scope away.
abbrev strip : ResourcePatch
strip = record {
  slug = none;
  uri = none;
  backend_kind = none;
  broker_provider_id = none;
  display_name = none;
  scopes = some [];
  policy = none;
}

abbrev requests : List Request
requests = on_links (creates (some link) "root") ∷ patches "2" strip ∷ []

serve_all-InOrder_example : InOrder (serve_all service requests registered)
serve_all-InOrder_example =
    serve_all-InOrder service refl requests registered
      (no_links-Sound registered.resources (refl, (refl, tt)))

-- The link is written, and the patch that takes its scope away is refused.
ran :
    ((serve_all service requests registered).resources ≡ registered.resources)
    × (is_empty (serve_all service requests registered).links ≡ false)
unfolding authserver.Fronting.Service.create authserver.Fronting.Rules.validate
    authserver.Fronting.Cycle.assert_no_cycle authserver.Store.Links.create
    authserver.Store.Links.list authserver.Store.Links.get authserver.Store.Resources.get_by_slug
    authserver.Store.Resources.get_by_id authserver.Domain.FrontingLinks.validate_link
    authserver.Domain.Resources.is_broker authserver.Domain.Resources.is_mint
    authserver.Domain.Resources.scope_name_set authserver.Common.contains authserver.Common.add_key
    authserver.Store.Sorting.order_by authserver.Store.Sorting.page
    authserver.Fronting.Service.summarize_scope_map authserver.Fronting.Service.actor_id_or_admin
    authserver.ResourceAdmin.Service.patch authserver.Domain.Resources.validate_resource
    authserver.Fronting.Rules.validate_resource_update authserver.Store.Links.list_for_resource
    authserver.Token.Env.audited authserver.Fronting.Cycle.search
    authserver.Fronting.Rules.check_ends
ran = (refl, refl)
