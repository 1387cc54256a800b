-- ===== src/Registrar/Mcp.antt =====
-- internal/registry/mcp_client.go: the handshake with an agent. Json and HTTP are parameters: `Wire`
-- is what encoding/json and net/http do, and `Post` what a POST of the initialize request to a URL
-- answers. The request itself, which is constant, is the library's to send. Of an error the text is
-- kept up to what a library or the agent says.
pub mod Targets
use Prim.Native.String.{◌++◌ as str_append}
use agentrax.Prelude.{
  ℤ, pos, eqb_ℤ, String, ◌==◌, Bool, not, Option, none, some, List, [], ◌∷◌, length, is_empty,
  trim_slashes, has_suffix, if◌then◌else◌,
}
use agentrax.Registrar.{Probe, advertised, unreachable}

-- mcpInitializeResult: tools_capability is Capabilities.Tools with its Available names, and tools
-- has the names of the definitions.
pub record McpInitializeResult : Type 0 where
  pub tools_capability : Option (List String)
  pub tools : List String

-- mcpInitializeResponse, with the code of the error
pub record McpInitializeResponse : Type 0 where
  pub result : Option McpInitializeResult
  pub error : Option ℤ

pub record McpHttpResponse (Body : Type 0) : Type 0 where
  pub status_code : ℤ
  pub body : Body

pub record Wire : Type 1 where
  pub Body : Type 0
  -- http.NewRequestWithContext
  pub is_request : String → Bool
  -- Do; none: no response
  pub post : String → Option (McpHttpResponse Body)
  pub decode : Body → Option McpInitializeResponse

unfoldable pub initialize_url : String → String
initialize_url endpoint =
    let url = trim_slashes endpoint in
    if not (has_suffix url "/initialize") then str_append url "/initialize" else url

-- The names that are not empty.
unfoldable pub named : List String → List String
named [] = []
named (t ∷ ts) = let rest = named ts in if not (t == "") then t ∷ rest else rest

available : Option (List String) → List String
available none = []
available (some names) = names

unfoldable pub tool_names : McpInitializeResult → List String
unfolding available
tool_names r =
    let names = available r.tools_capability in
    if not (is_empty names) then names else if not (is_empty r.tools) then named r.tools else []

module _ (w : Wire) where
  replied : Option McpInitializeResult → Option ℤ → Probe
  replied result (some code) = unreachable "MCP initialize RPC error"
  replied none none = unreachable "MCP initialize response missing result object"
  replied (some r) none = advertised (tool_names r)

  decoded_response : Option McpInitializeResponse → Probe
  unfolding replied
  decoded_response none = unreachable "decoding MCP initialize response"
  decoded_response (some r) = replied r.result r.error

  received : Option (McpHttpResponse w.Body) → Probe
  unfolding decoded_response
  received none = unreachable "sending MCP initialize"
  received (some response) =
      if not (eqb_ℤ response.status_code (pos 200))
      then unreachable "MCP initialize returned HTTP"
      else decoded_response (w.decode response.body)

  unfoldable pub initialize : String → Probe
  unfolding received
  initialize endpoint =
      let url = initialize_url endpoint in
      if not (w.is_request url)
      then unreachable "creating MCP initialize request"
      else received (w.post url)
