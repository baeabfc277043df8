-- ===== src/Examples/Exchanges.antt =====
-- A delivery with its request at concrete inputs.
use rc_wnzzer.Base.{Bytes, bytes, Option, none, arith}
use rc_wnzzer.Base.Table.{lookup}
use rc_wnzzer.Dispatch.Request.{Request, Sent, responded}
use rc_wnzzer.Dispatch.Exchange.{exchange, Delivered, exchange-Delivered}
use rc_wnzzer.Examples.Json.{sample_codec}
use rc_wnzzer.Examples.Inputs.{task}
use rc_wnzzer.Examples.Queues.{out_queue, out_task, out_held}
use rc_wnzzer.Examples.Attempts.{limits, failed}

abbrev same_name : Bytes → Bytes
same_name s = s

abbrev no_base64 : Bytes → Option Bytes
no_base64 s = none

abbrev refuses_none : Bytes → Bytes → Option Bytes
refuses_none method url = none

abbrev unavailable : Request → Sent
unavailable r = responded 503 (bytes "2") (bytes "busy")

exchange-Delivered_example :
    Delivered same_name no_base64
      (bytes "base64")
      refuses_none
      unavailable
      sample_codec
      limits
      failed
      out_task
      (lookup task.id
        (exchange same_name no_base64
          (bytes "base64")
          refuses_none
          unavailable
          sample_codec
          limits
          failed
          task.id
          out_queue).tasks)
exchange-Delivered_example =
    exchange-Delivered same_name no_base64 (bytes "base64") refuses_none unavailable sample_codec
      limits failed out_task (ground arith) (ground arith) (ground arith) task.id out_queue out_held
