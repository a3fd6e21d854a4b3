-- ===== src/Examples/Wire.antt =====
-- The wire format of guest/src/imb_wire.hpp at concrete inputs.
use isaac_metal_bridge.Base.{◌≡◌, refl, some, [], ◌∷◌, arith}
use isaac_metal_bridge.Wire.{Bytes, MessageHeader, encode_header, decode_header}
use isaac_metal_bridge.Wire.Digits.{IsBytes}
use isaac_metal_bridge.Wire.Header.{
  IsHeader, decode_header-encode_header, encode_header-decode_header,
}

abbrev hello : MessageHeader
hello = record {
  magic = 826428745;
  version_major = 1;
  version_minor = 22;
  message_type = 1;
  flags = 0;
  payload_length = 8;
  request_id = 1;
  resource_id = 18446744073709551615;
}

hello-IsHeader : IsHeader hello
hello-IsHeader = record {
  magic = omega arith;
  version_major = omega arith;
  version_minor = omega arith;
  message_type = omega arith;
  flags = omega arith;
  payload_length = omega arith;
  request_id = omega arith;
  resource_id = omega arith;
}

decode_header-encode_header_example : decode_header (encode_header hello) ≡ some hello
decode_header-encode_header_example = decode_header-encode_header hello hello-IsHeader

abbrev message : Bytes
message =
    73 ∷ 77 ∷ 66 ∷ 49 ∷ 1 ∷ 0 ∷ 22 ∷ 0 ∷ 1 ∷ 0 ∷ 0 ∷ 0 ∷ 8 ∷ 0 ∷ 0 ∷ 0 ∷ 1 ∷ 0 ∷ 0 ∷ 0 ∷ 0 ∷ 0 ∷ 0
    ∷ 0 ∷ 255 ∷ 255 ∷ 255 ∷ 255 ∷ 255 ∷ 255 ∷ 255 ∷ 255 ∷ []

message-IsBytes : IsBytes message
message-IsBytes = (
  omega arith,
  (
    omega arith,
    (
      omega arith,
      (
        omega arith,
        (
          omega arith,
          (
            omega arith,
            (
              omega arith,
              (
                omega arith,
                (
                  omega arith,
                  (
                    omega arith,
                    (
                      omega arith,
                      (
                        omega arith,
                        (
                          omega arith,
                          (
                            omega arith,
                            (
                              omega arith,
                              (
                                omega arith,
                                (
                                  omega arith,
                                  (
                                    omega arith,
                                    (
                                      omega arith,
                                      (
                                        omega arith,
                                        (
                                          omega arith,
                                          (
                                            omega arith,
                                            (
                                              omega arith,
                                              (
                                                omega arith,
                                                (
                                                  omega arith,
                                                  (
                                                    omega arith,
                                                    (
                                                      omega arith,
                                                      (
                                                        omega arith,
                                                        (
                                                          omega arith,
                                                          (
                                                            omega arith,
                                                            (omega arith, (omega arith, tt)),
                                                          ),
                                                        ),
                                                      ),
                                                    ),
                                                  ),
                                                ),
                                              ),
                                            ),
                                          ),
                                        ),
                                      ),
                                    ),
                                  ),
                                ),
                              ),
                            ),
                          ),
                        ),
                      ),
                    ),
                  ),
                ),
              ),
            ),
          ),
        ),
      ),
    ),
  ),
)

encode_header-decode_header_example :
    (h : MessageHeader) × (decode_header message ≡ some h)
    × IsHeader h
    × (encode_header h ≡ message)
encode_header-decode_header_example = encode_header-decode_header message refl message-IsBytes
