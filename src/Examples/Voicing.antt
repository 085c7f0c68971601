-- ===== src/Examples/Voicing.antt =====
-- The voice part of the client library at chosen sound.
use voiceapp.Base.{
  ℕ, zero, suc, ◌≡◌, ◌≤◌, Bool, none, some, some_inj, List, [], ◌∷◌, subst, All, length, arith, ltb,
  ◌==◌, if◌then◌else◌,
}
use voiceapp.Table.Assoc.{assoc}
use voiceapp.Protocol.Bytes.{IsByte}
use voiceapp.Protocol.Packet.{Packet, voice_data, ping_request}
use voiceapp.Sdk.Voice.Codec.{Codec, Resampler, max_opus_frame}
use voiceapp.Sdk.Voice.Pipeline.{start, pipeline_task}
use voiceapp.Sdk.Voice.Pipeline.Numbering.{Flows, start-IsReady, pipeline_task-Flows}
use voiceapp.Sdk.Voice.Pipeline.Cuts.{datagrams, concat, pipeline_task-concat}
use voiceapp.Sdk.Voice.Output.{
  NetEq, AudioPacket, Decoder, Outputs, no_outputs, create_output, get_or_create_voice_output,
  process_incoming_packets,
}
use voiceapp.Sdk.Voice.Output.Separate.{
  IsSeparate, voice_output, played, consume_all, no_outputs-IsSeparate, process_incoming-output,
}
use voiceapp.Sdk.Voice.Output.Requests.{Gives, get_or_create-Gives}

two_bytes :
    {bytes : List ℕ}
    → some (1 ∷ 2 ∷ []) ≡ some bytes
    → All IsByte bytes × (length bytes ≤ max_opus_frame)
two_bytes e =
    subst (λ bs. All IsByte bs × (length bs ≤ max_opus_frame)) (some_inj e)
      ((omega arith, (omega arith, tt)), omega arith)

-- A codec that gives two bytes for each frame, and counts the frames.
abbrev codec : Codec ℕ
codec = record {
  State = ℕ;
  silence = 0;
  encode_float = λ xs s. (some (1 ∷ 2 ∷ []), suc s);
  encode_float_bytes = λ xs s {bytes} e. two_bytes e;
}

-- A resampler that doubles each sample, and fails at its third chunk.
abbrev doubled : List ℕ → List ℕ
doubled [] = []
doubled (x ∷ xs) = x ∷ x ∷ doubled xs

abbrev resampler : Resampler ℕ
resampler = record {
  State = ℕ;
  process = λ xs s. (if s == 2 then none else some (doubled xs), suc s);
}

abbrev samples : ℕ → List ℕ
samples zero = []
samples (suc n) = n ∷ samples n

-- The channel to the UDP task takes five datagrams.
abbrev takes_five : ℕ → Bool
takes_five sent = ltb sent 5

pipeline_task-Flows_example : Flows codec resampler takes_five (
    pipeline_task codec resampler takes_five
      (samples 700 ∷ samples 1300 ∷ samples 10 ∷ [])
      (start codec resampler takes_five 0 (some 0)))
pipeline_task-Flows_example =
    pipeline_task-Flows codec resampler takes_five (samples 700 ∷ samples 1300 ∷ samples 10 ∷ [])
      (start codec resampler takes_five 0 (some 0))
      (start-IsReady codec resampler takes_five 0 (some 0))

pipeline_task-concat_example :
    datagrams codec resampler takes_five (
      pipeline_task codec resampler takes_five
        (samples 700 ∷ samples 1300 ∷ [])
        (start codec resampler takes_five 0 none))
    ≡ datagrams codec resampler takes_five (
        pipeline_task codec resampler takes_five
          (concat (samples 700 ∷ samples 1300 ∷ []) ∷ [])
          (start codec resampler takes_five 0 none))
pipeline_task-concat_example =
    pipeline_task-concat codec resampler takes_five (samples 700 ∷ samples 1300 ∷ [])
      (start codec resampler takes_five 0 none) (start-IsReady codec resampler takes_five 0 none)

-- A jitter buffer that keeps its packets, for two rates.
abbrev neteq : NetEq ℕ
neteq = record {
  State = List AudioPacket;
  create = λ rate. if ltb rate 8000 then none else some [];
  insert_packet = λ p s. (some tt, p ∷ s);
  get_audio = λ s. (none, s);
}

abbrev silent_outputs : Outputs neteq (assoc (ℕ × ℕ)) (assoc (Decoder neteq))
silent_outputs = no_outputs neteq (assoc (ℕ × ℕ)) (assoc (Decoder neteq))

get_or_create-Gives_example :
    Gives neteq
      (assoc (ℕ × ℕ))
      (assoc (Decoder neteq))
      7
      48000
      silent_outputs
      (get_or_create_voice_output neteq
        (assoc (ℕ × ℕ))
        (assoc (Decoder neteq))
        7
        48000
        silent_outputs).0
      (get_or_create_voice_output neteq
        (assoc (ℕ × ℕ))
        (assoc (Decoder neteq))
        7
        48000
        silent_outputs).1
get_or_create-Gives_example =
    get_or_create-Gives neteq (assoc (ℕ × ℕ)) (assoc (Decoder neteq)) 7 48000 silent_outputs
      (no_outputs-IsSeparate neteq (assoc (ℕ × ℕ)) (assoc (Decoder neteq)))

-- The outputs after a request for user 7.
abbrev one_output : Outputs neteq (assoc (ℕ × ℕ)) (assoc (Decoder neteq))
one_output =
    (get_or_create_voice_output neteq (assoc (ℕ × ℕ)) (assoc (Decoder neteq)) 7 48000
      silent_outputs).1

one_output-IsSeparate : IsSeparate neteq (assoc (ℕ × ℕ)) (assoc (Decoder neteq)) one_output
unfolding get_or_create_voice_output create_output
one_output-IsSeparate =
    (get_or_create-Gives neteq (assoc (ℕ × ℕ)) (assoc (Decoder neteq)) 7 48000 silent_outputs
      (no_outputs-IsSeparate neteq (assoc (ℕ × ℕ)) (assoc (Decoder neteq)))).1

abbrev arrivals : List Packet
arrivals =
    voice_data 7 65536 0 (1 ∷ [])
    ∷ voice_data 9 1 0 []
    ∷ ping_request 3
    ∷ voice_data 7 65537 960 []
    ∷ []

process_incoming-output_example :
    voice_output neteq
      (assoc (ℕ × ℕ))
      (assoc (Decoder neteq))
      7
      (process_incoming_packets neteq (assoc (ℕ × ℕ)) (assoc (Decoder neteq)) arrivals one_output)
    ≡ played neteq
        (assoc (ℕ × ℕ))
        (assoc (Decoder neteq))
        (consume_all neteq (assoc (ℕ × ℕ)) (assoc (Decoder neteq)) 7 arrivals)
        (voice_output neteq (assoc (ℕ × ℕ)) (assoc (Decoder neteq)) 7 one_output)
process_incoming-output_example =
    process_incoming-output neteq (assoc (ℕ × ℕ)) (assoc (Decoder neteq)) arrivals 7 one_output
      one_output-IsSeparate
