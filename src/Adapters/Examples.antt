-- ===== src/Adapters/Examples.antt =====
-- A warm of a concrete request.
use cachepilot.Prelude.{true}
use cachepilot.Prelude.Int.{pos}
use cachepilot.Json.{int, bool, text, Fields, end, field}
use cachepilot.Adapters.{build_warm_request}
use cachepilot.Adapters.Warm.{IsReplay, build_warm_request-IsReplay}

abbrev pub streamed_body : Fields
streamed_body =
    field "model" (text "model")
      (field "stream" (bool true) (field "max_tokens" (int (pos 512)) end))

build_warm_request-IsReplay_example : IsReplay streamed_body (build_warm_request streamed_body)
build_warm_request-IsReplay_example = build_warm_request-IsReplay streamed_body
