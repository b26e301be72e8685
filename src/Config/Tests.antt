-- ===== src/Config/Tests.antt =====
-- Concrete endpoints, and the theorems at them.
use warp_proxy.Base.{◌≡◌, refl, none, some}
use warp_proxy.Base.Text.{text}
use warp_proxy.Config.{strip_v4_port, strip_v6_brackets}

bare_host : strip_v4_port (text " 162.159.198.1 ") ≡ some (text "162.159.198.1")
unfolding strip_v4_port
bare_host = refl

only_space : strip_v6_brackets (text "  ") ≡ none
unfolding strip_v6_brackets
only_space = refl
