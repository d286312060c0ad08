-- ===== src/Atoi.antt =====
-- The C library's `atoi`, without overflow, and `isspace` runs.
use nntp_tools.Prelude.{true, false, [], ◌∷◌, Bytes, ◌==◌, if◌then◌else◌}
use nntp_tools.Prelude.Int.{ℤ, pos, negate}
use nntp_tools.Text.{is_space}
use nntp_tools.Csv.{take_digits, decimal_value}

unfoldable pub skip_space : Bytes → Bytes
skip_space [] = []
skip_space (c ∷ s) = elim (is_space c) [ true ↦ skip_space s | false ↦ c ∷ s ]

-- Behind the white space.
unfoldable pub atoi_sign : Bytes → ℤ
atoi_sign [] = pos 0
atoi_sign (c ∷ s) =
    if c == b'-'
    then negate (decimal_value 0 (take_digits s).0)
    else if c == b'+'
    then pos (decimal_value 0 (take_digits s).0)
    else pos (decimal_value 0 (take_digits (c ∷ s)).0)

unfoldable pub atoi : Bytes → ℤ
atoi s = atoi_sign (skip_space s)
