-- ===== src/Tests/Formats.antt =====
-- The format of a philosopher's arrival, with a letter behind it.
use horaci_os.Prelude.{ℕ, ◌≡◌, refl, List, [], ◌∷◌, some, length, arith}
use horaci_os.Userland.Stdlib.Format.{my_printf, scan_from, is_digit}
use horaci_os.Userland.Stdlib.Format.Template.{Piece, literal, number, letter, template, values}
use horaci_os.Userland.Stdlib.Format.Scan.{scan_from-my_printf}

-- "f %d %c"
abbrev pieces : List Piece
pieces = literal 102 ∷ literal 32 ∷ number 12 ∷ literal 32 ∷ letter 97 ∷ []

scan_from-my_printf_example :
    (text : List ℕ) × (my_printf (template pieces) (values pieces) ≡ some text)
    × (scan_from (template pieces) text 0 [] ≡ (length (values pieces), values pieces))
unfolding is_digit
scan_from-my_printf_example =
    scan_from-my_printf pieces (tt, (tt, tt)) (refl, tt)
      (
        (λ h. absurd (omega arith)),
        (
          (λ h. absurd (omega arith)),
          (omega arith, ((λ h. absurd (omega arith)), (omega arith, tt))),
        ),
      )
