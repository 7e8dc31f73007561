-- ===== src/Options/Printing.antt =====
-- What StdOutConfiguration prints of each option (prototype/options.cpp).
use mathlib.Core.List.{append_assoc}
use fio_relic.Base.{
  ◌≡◌, refl, ap, ◌∙◌, sym, List, [], ◌∷◌, ◌++◌, Bool, true, false, if◌then◌else◌, any,
}
use fio_relic.Base.Int.{ℤ}
use fio_relic.Base.Bytes.{Bytes, codes, bytes_eq, c_str}
use fio_relic.Utils.{crlf}
use fio_relic.Options.{
  OptionValue, print_value, print_option, print_options, std_out_configuration,
  std_out_whole_configuration,
}

module _ {Double : Type 0} (put : ℤ → Bytes) (put_double : Double → Bytes) where
  -- The line of an option, or nothing.
  abbrev pub line_of : Bytes × OptionValue Double → List Bytes → Bytes
  line_of o excluded = if any (bytes_eq o.0) excluded then [] else print_option put put_double o

  print_options-append :
      (xs ys : List (Bytes × OptionValue Double)) (excluded : List Bytes)
      → print_options put put_double (xs ++ ys) excluded
        ≡ print_options put put_double xs excluded ++ print_options put put_double ys excluded
  unfolding print_options
  print_options-append [] ys excluded = refl
  print_options-append (x ∷ xs) ys excluded =
      printed (any (bytes_eq x.0) excluded) _ _ _ (print_options-append xs ys excluded)
    where
      printed :
          (out : Bool) (rest mine theirs : Bytes)
          → rest ≡ mine ++ theirs
          → (if out then rest else print_option put put_double x ++ rest)
            ≡ (if out then mine else print_option put put_double x ++ mine) ++ theirs
      printed true rest mine theirs h = h
      printed false rest mine theirs h =
          rw h (sym (append_assoc (print_option put put_double x) mine theirs))

  print_options-cons :
      (o : Bytes × OptionValue Double) (ys : List (Bytes × OptionValue Double))
      (excluded : List Bytes)
      → print_options put put_double (o ∷ ys) excluded
        ≡ line_of o excluded ++ print_options put put_double ys excluded
  unfolding print_options
  print_options-cons o ys excluded = printed (any (bytes_eq o.0) excluded) _
    where
      printed :
          (out : Bool) (rest : Bytes)
          → (if out then rest else print_option put put_double o ++ rest)
            ≡ (if out then [] else print_option put put_double o) ++ rest
      printed true rest = refl
      printed false rest = refl

  print_options-middle :
      (xs ys : List (Bytes × OptionValue Double)) (o : Bytes × OptionValue Double)
      (excluded : List Bytes)
      → print_options put put_double (xs ++ o ∷ ys) excluded
        ≡ print_options put put_double xs excluded
          ++ line_of o excluded
          ++ print_options put put_double ys excluded
  print_options-middle xs ys o excluded =
      print_options-append xs (o ∷ ys) excluded
      ∙ ap (λ (l : Bytes). print_options put put_double xs excluded ++ l)
          (print_options-cons o ys excluded)
      ∙ sym (
          append_assoc (print_options put put_double xs excluded) (line_of o excluded)
            (print_options put put_double ys excluded))

  -- Wherever an option stands, its line stands between what is printed of the options before it and of
  -- those behind it, and there is none exactly for an excluded name. With the default argument, which
  -- excludes nothing, an option that holds a text is printed, whatever its name: the name up to a NUL,
  -- '=', the text and CR LF.
  pub std_out_configuration_lem :
      (xs ys : List (Bytes × OptionValue Double)) (o : Bytes × OptionValue Double)
      (name text : Bytes) (excluded : List Bytes)
      → (std_out_configuration put put_double (xs ++ o ∷ ys) excluded
          ≡ std_out_configuration put put_double xs excluded
            ++ line_of o excluded
            ++ print_options put put_double ys excluded)
        × (std_out_whole_configuration put put_double (xs ++ (name, OptionValue.string text) ∷ ys)
            ≡ std_out_whole_configuration put put_double xs
              ++ (c_str name ++ codes "=" ++ text ++ crlf)
              ++ print_options put put_double ys [])
  unfolding std_out_configuration std_out_whole_configuration print_option print_value any
  std_out_configuration_lem xs ys o name text excluded = (
    ap (λ (l : Bytes). codes "Configuration:" ++ crlf ++ l) (print_options-middle xs ys o excluded),
    ap (λ (l : Bytes). codes "Configuration:" ++ crlf ++ l)
        (print_options-middle xs ys (name, OptionValue.string text) []),
  )
