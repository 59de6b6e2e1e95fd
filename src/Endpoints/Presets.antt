-- ===== src/Endpoints/Presets.antt =====
-- internal/endpoints/presets/presets.go: the presets and the queries of SAST.
use cxone_sdk_golang.Prelude.{Bool, String, Option, none, List, [], false}
use cxone_sdk_golang.Prelude.Text.{concat}
use cxone_sdk_golang.Errors.{Error}
use cxone_sdk_golang.Transport.Json.{Query}
use cxone_sdk_golang.Endpoints.{Funnel, Codec, fetch}
use cxone_sdk_golang.Endpoints.Url.{join_url}
use cxone_sdk_golang.Endpoints.Users.{ok_codes}

-- the fields of PresetDescriptor that the reader shows
pub record PresetDescriptor : Type 0 where
  pub id : String
  pub name : String
  pub description : String
  pub custom : Bool

-- PresetDetail, without its tenant
pub record PresetDetail : Type 0 where
  pub descriptor : PresetDescriptor
  pub query_ids : List String

-- the elements of PresetCollection and QueryCollection
pub record PresetApi (W : Type 0) : Type 0 where
  pub funnel : Funnel W
  pub base : String
  pub collection : Codec Unit (List PresetDescriptor)
  pub detail : Codec Unit PresetDetail
  pub queries : Codec Unit (List String)

abbrev pub zero_detail : PresetDetail
zero_detail = record {
  descriptor = record { id = ""; name = ""; description = ""; custom = false };
  query_ids = [];
}

module _ {W : Type 0} (api : PresetApi W) where
  -- ListPresets
  unfoldable pub list_presets : Query → W → (Option (List PresetDescriptor) × Error) × W
  list_presets query w =
      fetch api.funnel api.collection "GET" (join_url api.base "api/presets") query none ok_codes []
        w

  -- GetPreset
  unfoldable pub get_preset : String → W → (Option PresetDetail × Error) × W
  get_preset id w =
      fetch api.funnel api.detail "GET" (join_url api.base (concat "api/presets/" id)) [] none
        ok_codes zero_detail w

  -- ListQueries
  unfoldable pub list_queries : Query → W → (Option (List String) × Error) × W
  list_queries query w =
      fetch api.funnel api.queries "GET" (join_url api.base "api/queries") query none ok_codes [] w
