-- ===== src/Models/Json.antt =====
-- Values that encoding/json decodes into `any`, and the models that the operator turns into them. A
-- number is kept as the text that encoding/json writes for it. The fields of a map have different
-- keys and stand in the order of the keys, in which encoding/json writes them.
use authentik_operator.Models.{
  Application, PatchedApplicationRequest, ProxyProvider, PatchedProxyProviderRequest,
  OAuth2Provider, PatchedOAuth2ProviderRequest,
}
use authentik_operator.Prelude.{Bool, true, String, ◌==◌, false, ◌&&◌, bool_eq, string_eq}

mutual
  pub data Json : Type 0 where
    null : Json
    boolean : Bool → Json
    number text : String → Json
    array : Items → Json
    object : Fields → Json

  pub data Items : Type 0 where
    end_array : Items
    item : Json → Items → Items

  pub data Fields : Type 0 where
    end_map : Fields
    field : String → Json → Fields → Fields

-- the models that `toFields` is called with
pub data JsonModel : Type 0 where
  application : Application → JsonModel
  patched_application : PatchedApplicationRequest → JsonModel
  proxy_provider : ProxyProvider → JsonModel
  patched_proxy_provider : PatchedProxyProviderRequest → JsonModel
  oauth2_provider : OAuth2Provider → JsonModel
  patched_oauth2_provider : PatchedOAuth2ProviderRequest → JsonModel

-- `reflect.DeepEqual` of two values
unfoldable mutual
  pub json_eq : Json → Json → Bool
  json_eq null null = true
  json_eq (boolean a) (boolean b) = a == b
  json_eq (number a) (number b) = a == b
  json_eq (text a) (text b) = a == b
  json_eq (array a) (array b) = items_eq a b
  json_eq (object a) (object b) = fields_eq a b
  json_eq _ _ = false

  pub items_eq : Items → Items → Bool
  items_eq end_array end_array = true
  items_eq (item a rest) (item b others) = json_eq a b && items_eq rest others
  items_eq _ _ = false

  pub fields_eq : Fields → Fields → Bool
  fields_eq end_map end_map = true
  fields_eq (field k a rest) (field l b others) = k == l && json_eq a b && fields_eq rest others
  fields_eq _ _ = false
