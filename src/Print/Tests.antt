-- ===== src/Print/Tests.antt =====
-- A line of core/print.c, with a vsnprintf that knows one text.
use gnuweeb_bot.Common.{
  Bool, false, replicate, ℕ, ◌-◌, ◌≡◌, refl, true, List, [], ◌∷◌, length, take, arith,
}
use gnuweeb_bot.Common.Int.{ℤ, pos}
use gnuweeb_bot.Print.{alloc_print_buf, gw_print}
use gnuweeb_bot.Print.Whole.{gw_print_lem}

abbrev hello : List ℕ
hello = 72 ∷ 105 ∷ []

-- The va_list is whether it has been used.
abbrev format_hello : Bool → ℕ → ℤ × List ℕ × Bool
format_hello false size = (pos (length hello), take (size - 1) hello, true)
format_hello true size = (pos 0, [], true)

gw_print_lem_example :
    gw_print format_hello true 1 false [] 0
    ≡ (pos 2, record { time = []; kind = "ERROR"; text = hello }, 0)
gw_print_lem_example =
    gw_print_lem format_hello false hello true 1 [] 0 (λ size h. (true, refl)) (omega arith)

abbrev long : List ℕ
long = replicate 8192 65

abbrev format_long : Bool → ℕ → ℤ × List ℕ × Bool
format_long false size = (pos 8192, take (size - 1) long, true)
format_long true size = (pos 0, [], true)

-- A line of 8192 characters is printed as what the used va_list gives.
long_line_is_lost : (gw_print format_long true 1 false [] 0).1.text ≡ []
unfolding gw_print alloc_print_buf
long_line_is_lost = refl
