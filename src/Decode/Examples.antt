-- ===== src/Decode/Examples.antt =====
-- Examples for `percent_decode`.
use gfhttpd.Base.{◌≡◌, ◌≢◌, bytes, ◌++◌, ◌∷◌, [], ok, fault, length, arith}
use gfhttpd.Decode.{percent_decode}
use gfhttpd.Decode.Reference.{overrun}
use gfhttpd.Decode.Result.{result, percent_decode-result}
use gfhttpd.Decode.Overrun.{percent_decode-fault}

percent_decode-result_example :
    percent_decode (bytes "/a%20" ++ bytes "xyz") (length (bytes "/a%20"))
    ≡ ok (result (bytes "/a%20") (bytes "xyz") ++ 0 ∷ [])
percent_decode-result_example = percent_decode-result (bytes "/a%20") (bytes "xyz") (omega arith)

overruns : overrun (bytes "/a%20") ≢ 0
unfolding overrun gfhttpd.Decode.isxdigit
overruns e = ground arith

percent_decode-fault_example : percent_decode (bytes "/a%20") (length (bytes "/a%20")) ≡ fault
percent_decode-fault_example = percent_decode-fault (bytes "/a%20") (omega arith) overruns
