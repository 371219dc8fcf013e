-- ===== src/Plugin/Addresses.antt =====
-- `displayIPs` of src/irplugin/irplugin.cpp: the addresses that are listed when the program starts.
-- What the socket library answers is a parameter.
use ir_pit_crew.Prelude.{ℕ, suc, Option, none, some, List, [], ◌∷◌, ◌++◌, if◌then◌else◌}
use ir_pit_crew.Prelude.Int.{ℤ, pos}
use ir_pit_crew.Plugin.Standings.{int_eq}
use ir_pit_crew.Prelude.Number.{show_nat, show_int}
use ir_pit_crew.Prelude.Text.{Text, codes}

-- `gethostname`: a name, or `WSAGetLastError`.
pub data HostName : Type 0 where
  failed : ℤ → HostName
  named : Text → HostName

-- What is written, to `cout` and to `cerr`, and the result.
pub record Listing : Type 0 where
  pub out : Text
  pub err : Text
  pub code : ℕ

-- The addresses from one on, as `inet_ntoa` writes them; the port is left out if it is the one that
-- browsers take.
unfoldable pub address_lines : ℤ → ℕ → List Text → Text
unfolding show_nat show_int
address_lines port i [] = []
address_lines port i (address ∷ addresses) =
    let rest = address_lines port (suc i) addresses in
    codes "Address "
    ++ (show_nat i
        ++ (codes ": "
            ++ (address
                ++ ((if int_eq port (pos 80) then [] else codes ":" ++ show_int port)
                    ++ b'\n' ∷ rest))))

abbrev hints : Text
hints =
    codes "\n"
    ++ (codes "* Type Address above into web browser on client device to start remote display.\n"
        ++ (codes "* For full screen on a phone, select \"Add to Home Screen\" in browser then\n"
            ++ codes "* launch using the new icon on home screen.\n\n"))

-- The addresses are what `gethostbyname` finds for the name, `none` if it finds no host.
unfoldable pub display_ips : HostName → (Text → Option (List Text)) → ℤ → Listing
unfolding show_int address_lines
display_ips (failed error) lookup port = record {
  out = [];
  err = codes "Error " ++ (show_int error ++ codes " when getting local host name.\n");
  code = 1;
}
display_ips (named name) lookup port =
    let first = codes "Host name is \"" ++ (name ++ codes "\".\n") in
    elim (lookup name) [
      | none ↦ record { out = first; err = codes "Yow! Bad host lookup.\n"; code = 1 }
      | some addresses ↦ record {
        out = first ++ (address_lines port 0 addresses ++ hints);
        err = [];
        code = 0;
      }
    ]
