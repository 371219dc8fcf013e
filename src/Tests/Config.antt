-- ===== src/Tests/Config.antt =====
-- src/irplugin/ConfigData on concrete inputs.
use ir_pit_crew.LapFuel.Files.{Storage}
use ir_pit_crew.Config.Read.{read_file, read_config_data}
use ir_pit_crew.Config.Read.Kept.{IsSolid}
use ir_pit_crew.Config.Read.Again.{config-again}
use ir_pit_crew.Prelude.Int.{ℤ, pos, negsuc}
use ir_pit_crew.Floats.Fixed.{digits_of, fixed}
use ir_pit_crew.Prelude.{
  false, ℕ, zero, suc, ◌+◌, ◌/◌, ◌%◌, true, All-append, [], arith, ◌≡◌, refl, none, ◌∷◌,
}
use ir_pit_crew.Prelude.Number.{is_space}
use ir_pit_crew.Prelude.Text.{codes}
use ir_pit_crew.Config.Attribute.Trim.{IsWord}

port-IsWord : IsWord (codes "Port")
unfolding is_space
port-IsWord = record { nonempty = refl; solid = (refl, (refl, (refl, (refl, tt)))) }

number-IsWord : IsWord (codes "8080")
unfolding is_space
number-IsWord = record { nonempty = refl; solid = (refl, (refl, (refl, (refl, tt)))) }

digits-IsSolid : (k n : ℕ) → IsSolid (digits_of k n)
unfolding is_space
digits-IsSolid zero n = tt
digits-IsSolid (suc k) n =
    All-append (λ c. is_space c ≡ false) (digits_of k (n / 10)) ((b'0' + n % 10) ∷ [])
      (digits-IsSolid k (n / 10)) (ground arith, tt)

print_double-IsWord : (x : ℤ) → IsWord (fixed.print_double x)
unfolding is_space
print_double-IsWord (pos n) = record { nonempty = refl; solid = (refl, digits-IsSolid 12 n) }
print_double-IsWord (negsuc n) = record {
  nonempty = refl;
  solid = (refl, digits-IsSolid 12 (suc n));
}

truck-IsSolid : IsSolid (codes "truck")
unfolding is_space
truck-IsSolid = (refl, (refl, (refl, (refl, (refl, tt)))))

abbrev no_files : Storage
no_files = record { has_directory = λ d. true; can_write = λ p. true; files = λ p. none }

no_file-new : (read_file fixed (codes "truck") none).1 ≡ true
unfolding read_file
no_file-new = refl

config-again_example :
    let (s, st) = read_config_data fixed (codes "config.txt") (codes "truck") no_files in
    read_config_data fixed (codes "config.txt") (codes "truck") st
    ≡ (record s { extra_laps_of_fuel = fixed.atof (fixed.print_double s.extra_laps_of_fuel) }, st)
config-again_example =
    config-again fixed (codes "truck") truck-IsSolid print_double-IsWord (codes "config.txt")
      no_files refl no_file-new
