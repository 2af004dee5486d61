-- ===== src/Models/Capability.antt =====
-- core/models/capability.go
use flintlock.Prelude.{String, Bool, List, any, str_eq}

abbrev pub Capability : Type 0
Capability = String

abbrev pub metadata_service_capability : Capability
metadata_service_capability = "metadata-service"

abbrev pub auto_start_capability : Capability
auto_start_capability = "auto-start"

abbrev pub macvtap_capability : Capability
macvtap_capability = "macvtap"

abbrev pub virtiofs_capability : Capability
virtiofs_capability = "virtiofs"

abbrev pub vsock_capability : Capability
vsock_capability = "vsock"

-- Capabilities.Has
unfoldable pub has : List Capability → Capability → Bool
has cp has_cap = any (λ c. str_eq c has_cap) cp
