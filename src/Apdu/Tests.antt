-- ===== src/Apdu/Tests.antt =====
-- The smart card units at concrete inputs.
use bee.Common.{ℕ, ◌+◌, ◌≡◌, refl, some, [], ◌∷◌, arith}
use bee.Apdu.{
  Command, Response, cmd_enc, cmd_dec, body_dec, cdf_len_dec, rdf_len_dec, tail_dec, cdf_enc,
  rdf_enc, cmd_is_valid, resp_dec,
}
use bee.Apdu.Cmd.{IsCommand, cmd_dec-cmd_enc, cmd_dec-IsCommand}

-- SELECT with two octets of data and an answer of at most 256 octets.
abbrev select : Command
select = record {
  cla = 0;
  ins = 164;
  p1 = 4;
  p2 = 4;
  rdf_len = 256;
  cdf_len = 2;
  cdf = 63 ∷ 0 ∷ [];
}

select-IsCommand : IsCommand select
unfolding cmd_is_valid
select-IsCommand = record { valid = refl; cdf_fits = refl }

select_code : cmd_enc select ≡ 0 ∷ 164 ∷ 4 ∷ 4 ∷ 2 ∷ 63 ∷ 0 ∷ 0 ∷ []
unfolding cmd_enc cdf_enc rdf_enc
select_code = refl

select_decoded : cmd_dec 24 (0 ∷ 164 ∷ 4 ∷ 4 ∷ 2 ∷ 63 ∷ 0 ∷ 0 ∷ []) ≡ some (26, select)
unfolding cmd_dec body_dec cdf_len_dec rdf_len_dec tail_dec
select_decoded = refl

cmd_dec-cmd_enc_example : cmd_dec 24 (cmd_enc select) ≡ some (26, select)
cmd_dec-cmd_enc_example = cmd_dec-cmd_enc 24 select select-IsCommand

cmd_dec-IsCommand_example : IsCommand select × (◌≡◌ {A = ℕ} 26 (24 + 2))
cmd_dec-IsCommand_example =
    cmd_dec-IsCommand 24 26 (0 ∷ 164 ∷ 4 ∷ 4 ∷ 2 ∷ 63 ∷ 0 ∷ 0 ∷ []) select (omega arith)
      select_decoded

-- A long `cdf_len` of 0 with a two-octet `rdf_len`: nine octets that hold no data.
long_empty :
    cmd_dec 24 (0 ∷ 1 ∷ 2 ∷ 3 ∷ 0 ∷ 0 ∷ 0 ∷ 1 ∷ 1 ∷ [])
    ≡ some (24, record { cla = 0; ins = 1; p1 = 2; p2 = 3; rdf_len = 257; cdf_len = 0; cdf = [] })
unfolding cmd_dec body_dec cdf_len_dec rdf_len_dec tail_dec
long_empty = refl

abbrev done : Response
done = record { sw1 = 144; sw2 = 0; rdf_len = 1; rdf = 7 ∷ [] }

done_decoded : resp_dec 16 (7 ∷ 144 ∷ 0 ∷ []) ≡ some (17, done)
unfolding resp_dec
done_decoded = refl
