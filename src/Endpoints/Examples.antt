-- ===== src/Endpoints/Examples.antt =====
-- internal/endpoints: the theorems at concrete inputs.
use cxone_sdk_golang.Prelude.{◌≡◌, ◌↔◌, true, false, String, some}
use cxone_sdk_golang.Prelude.Text.{str_eq, concat}
use cxone_sdk_golang.Endpoints.Location.{location_id, slash_free, location_id-roundtrip}

abbrev location : String
location = "https://iam.example.net/auth/admin/realms/t/users/7f3a"

location_id-roundtrip_example : (location_id location ≡ some "7f3a") ↔ (
    (slash_free "7f3a" ≡ true)
    × (str_eq "7f3a" "" ≡ false)
    × ((parent : String) × (location ≡ concat parent (String.◌∷◌ "/" "7f3a"))))
location_id-roundtrip_example = location_id-roundtrip location "7f3a"
