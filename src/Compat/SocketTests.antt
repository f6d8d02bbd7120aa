-- ===== src/Compat/SocketTests.antt =====
-- Runs of the socket, form factor and power functions.
use pc_builder.Shared.{
  ◌≡◌, refl, true, false, none, some, [], ◌∷◌, map, nat_eq, option_eq, codes, str_eq,
}
use pc_builder.Compat.Sockets.{normalize_sockets, socket_supported}
use pc_builder.Compat.FormFactor.{form_factor_index}
use pc_builder.Compat.CpuPower.{times_1_35}

normalize_slashes :
    normalize_sockets (codes "LGA1851/1700/1200/115X, AMD AM5/AM4")
    ≡ some (codes "LGA1150,LGA1151,LGA1155,LGA1156,LGA1200,LGA1700,LGA1851,AM4,AM5")
unfolding normalize_sockets
normalize_slashes = refl

normalize_versions :
    normalize_sockets (codes "lga  2011-v3 and TR4-SP3") ≡ some (codes "LGA2011,SP3,sTR4")
unfolding normalize_sockets
normalize_versions = refl

supports_newer : socket_supported (codes "AM5") (codes "AM4") ≡ some true
unfolding socket_supported
supports_newer = refl

supports_no_older : socket_supported (codes "AM4") (codes "AM5") ≡ some false
unfolding socket_supported
supports_no_older = refl

form_factor_extended : form_factor_index (codes "E-ATX") ≡ some 3
unfolding form_factor_index
form_factor_extended = refl

form_factor_several : form_factor_index (codes "ATX/Micro-ATX/Mini-ITX") ≡ some 2
unfolding form_factor_index
form_factor_several = refl

form_factor_unplaced : form_factor_index (codes "XL-ATX") ≡ none
unfolding form_factor_index
form_factor_unplaced = refl

rounds_half_even : map times_1_35 (10 ∷ 30 ∷ 50 ∷ 65 ∷ 350 ∷ []) ≡ 14 ∷ 40 ∷ 68 ∷ 88 ∷ 473 ∷ []
unfolding times_1_35
rounds_half_even = refl
