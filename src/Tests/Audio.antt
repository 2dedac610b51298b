-- ===== src/Tests/Audio.antt =====
-- SIPEngine/audio.c on concrete samples, bytes and descriptions: the packets, the file, the played
-- samples, the sessions of a call, and the player of the ring-back tone.
use furikup.Config.{Config}
use furikup.Audio.Source.{is_reported, source_fails, answer_of, starter, init_audio-source_fails}
use furikup.Audio.Init.{Call, init_audio, setup_camera_microphone}
use furikup.Audio.Heard.{IsHeard, encode-IsHeard}
use furikup.Prelude.{
  suc, ◌+◌, ◌*◌, ℤ, pos, negsuc, ◌+ℤ◌, quot, true, false, List, [], ◌∷◌, some, ◌≡◌, refl, arith,
  replicate,
}
use furikup.Audio.Wav.{WavHeader, check_wav_format, print_header, check_wav_format-print_header}
use furikup.Audio.Send.{Microphone, Sender, first_sender, send_loop, encode}
use furikup.Audio.Stream.{IsStream, send_loop-IsStream}
use furikup.Audio.Receive.{Floats, scale_for, Arrival, receive_loop, first_receiver}
use furikup.Audio.Upsample.{played, receive_loop-played}
use furikup.Player.{got_data, exited, silent, Reach}
use furikup.Player.Threads.{wind_down, blocks_played, resting, wind_down-exited, many_players}
use furikup.Tests.Engine.{phone}

-- A header that says one channel, 44100 Hz, and 16 bits.
abbrev right : WavHeader
right = record { num_channels = 1; sample_rate = 44100; bits_per_sample = 16 }

check_wav_format-print_header_example :
    (check_wav_format
      (pos 44)
      (print_header (replicate 22 0) (replicate 6 0) (replicate 8 0) right)
      44100
      8
      1).0
    ≡ negsuc 1
check_wav_format-print_header_example =
    check_wav_format-print_header (replicate 22 0) (replicate 6 0) (replicate 8 0) right refl refl
      (omega arith, omega arith, omega arith) 44100 8 1

-- A headset that is ready at once, and then fails.
abbrev headset : List Microphone
headset =
    record { poll = pos 0; answer = pos 4096; recorded = replicate 4096 (pos 7) }
    ∷ record { poll = pos 0; answer = negsuc 0; recorded = replicate 4096 (pos 7) }
    ∷ []

send_loop-IsStream_example :
    (t : Sender) × (send_loop
        (record phone { use_headset = true })
        false
        (pos 0)
        headset
        (first_sender (replicate 4096 (pos 0)))
      ≡ some t)
    × IsStream 2 t.packets
send_loop-IsStream_example =
    send_loop-IsStream (record phone { use_headset = true }) false (pos 0) (replicate 4096 (pos 0))
      headset refl (refl, (refl, tt)) (omega arith)

-- Numbers with a precision of a sixth.
abbrev sixfold : ℤ → ℤ
sixfold (pos n) = pos (6 * n)
sixfold (negsuc n) = quot (negsuc (6 * n + 5)) 1

abbrev minus : ℤ → ℤ
minus (pos n) = quot (negsuc n) 1 +ℤ pos 1
minus (negsuc n) = pos (suc n)

abbrev sixths : Floats
sixths = record {
  Float = ℤ;
  of_int = sixfold;
  sixth_between = λ a b. quot (b +ℤ minus a) 6;
  plus = ◌+ℤ◌;
  to_short = λ x. quot x 6;
}

wind_down-exited_example :
    (wind_down (true ∷ false ∷ true ∷ true ∷ []) got_data ≡ exited)
    × (blocks_played (true ∷ false ∷ true ∷ true ∷ []) got_data ≡ 0)
wind_down-exited_example = wind_down-exited (true ∷ false ∷ true ∷ true ∷ []) got_data (omega arith)

many_players_example : Reach (silent (pos 3)) (resting (pos 3) 2)
many_players_example = many_players 3 1

-- A packet, and then none.
abbrev arrivals : List (Arrival sixths)
arrivals =
    record { answer = pos 160; received = replicate 160 200 }
    ∷ record { answer = pos 0; received = replicate 160 200 }
    ∷ []

receive_loop-played_example :
    receive_loop sixths (pos 0) arrivals (first_receiver sixths)
    ≡ some (record { blocks = played sixths (pos 0) arrivals []; ts = 320 })
receive_loop-played_example =
    receive_loop-played sixths (pos 0) arrivals (omega arith, (omega arith, tt))

encode-IsHeard_example :
    IsHeard false (pos 1000) (scale_for sixths (pos 8) (encode (pos 8) (pos 1000)))
encode-IsHeard_example = encode-IsHeard sixths (pos 8) (pos 1000) (omega arith)

abbrev with_camera : Config
with_camera = record phone { use_usb = true; use_video = true }

-- The set-up of the camera's microphone fails.
abbrev no_setup : Call → ℤ
no_setup setup_camera_microphone = negsuc 0
no_setup _ = pos 0

init_audio-source_fails_example :
    (is_reported (init_audio with_camera no_setup (pos 0)).calls
      ≡ source_fails with_camera no_setup (pos 0))
    × ((init_audio with_camera no_setup (pos 0)).code ≡ answer_of no_setup (starter with_camera))
init_audio-source_fails_example = init_audio-source_fails with_camera no_setup (pos 0)
