-- ===== src/Amount/Tests.antt =====
-- An amount with a fraction.
use pods.Base.{◌≡◌, ok, arith}
use pods.Amount.Parse.{parse_nim_to_luna}
use pods.Amount.Exact.{print_nim, parse-print_nim}

parse-print_nim_example : parse_nim_to_luna (print_nim 1250001) ≡ ok 1250001
parse-print_nim_example = parse-print_nim 1250001 (omega arith) (omega arith)
