-- ===== src/Mcp/Errors.antt =====
-- internal/transport/mcp/errors.go: `mapErr`.
use Prim.Native.String
use whatsmeow_api.Prelude.{String}
use whatsmeow_api.Errors.{Error, invalid_request, forbidden, not_found}
use whatsmeow_api.Http.Response.{error_text}

-- A result of the tool that says what is wrong, or an error of the handler.
pub data ToolError : Type 0 where
  tool_err : String → ToolError
  handler_error : String → ToolError

unfoldable pub map_err : Error → ToolError
map_err (invalid_request why) =
    tool_err (String.◌++◌ "invalid request: " (error_text (invalid_request why)))
map_err (forbidden why) = tool_err (String.◌++◌ "forbidden: " (error_text (forbidden why)))
map_err not_found = tool_err (String.◌++◌ "not found: " (error_text not_found))
map_err e = handler_error "internal error"
