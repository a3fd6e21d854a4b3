-- ===== src/Examples/Views.antt =====
-- A buffer view of guest/vulkan_icd/imb_vulkan_icd.cpp at a concrete input.
use isaac_metal_bridge.Base.{ℕ, ◌≡◌, refl, true, some, [], ◌∷◌, lookup, contains, put, insert}
use isaac_metal_bridge.Cuda.Registry.{object}
use isaac_metal_bridge.Icd.Result.{success, Answer, answer}
use isaac_metal_bridge.Icd.Driver.{Driver, BufferState, BufferViewState}
use isaac_metal_bridge.Icd.Views.{TexelFormats, BufferViewInfo, create_buffer_view}
use isaac_metal_bridge.Icd.Views.Ranges.{IsView, create_buffer_view-IsView}
use isaac_metal_bridge.Examples.Driver.{one_buffer, one_buffer-IsSound}
use isaac_metal_bridge.Examples.Icd.{vulkan}

abbrev texels : TexelFormats
texels = record {
  r8_unorm = 9;
  r8_snorm = 10;
  r8_uint = 13;
  r8_sint = 14;
  r8g8_unorm = 16;
  r8g8_snorm = 17;
  r8g8_uint = 20;
  r8g8_sint = 21;
  r8g8b8a8_unorm = 37;
  r8g8b8a8_snorm = 38;
  r8g8b8a8_uint = 41;
  r8g8b8a8_sint = 42;
  r16_unorm = 70;
  r16_snorm = 71;
  r16_uint = 74;
  r16_sint = 75;
  r16_sfloat = 76;
  r16g16_unorm = 77;
  r16g16_snorm = 78;
  r16g16_uint = 81;
  r16g16_sint = 82;
  r16g16_sfloat = 83;
  r16g16b16a16_unorm = 91;
  r16g16b16a16_snorm = 92;
  r16g16b16a16_uint = 95;
  r16g16b16a16_sint = 96;
  r16g16b16a16_sfloat = 97;
  r32_uint = 98;
  r32_sint = 99;
  r32_sfloat = 100;
  r32g32_uint = 101;
  r32g32_sint = 102;
  r32g32_sfloat = 103;
  r32g32b32a32_uint = 107;
  r32g32b32a32_sint = 108;
  r32g32b32a32_sfloat = 109;
}

-- 30 bytes of words of 32 bits, the last one incomplete.
abbrev view_info : BufferViewInfo
view_info = record { buffer = 32; format = 98; offset = 8; range = 30 }

create_buffer_view-IsView_example :
    (a : Answer Driver ℕ) × (create_buffer_view texels vulkan 0 true 3 view_info
        (some 80)
        one_buffer
      ≡ some a)
    × (a.result ≡ success
        → (b : BufferState) × (p : ℕ) × (view : BufferViewState) × (object 32 one_buffer.buffers
            ≡ some b)
          × (a.out ≡ some p)
          × (object p a.state.buffer_views ≡ some view)
          × IsView vulkan view_info view b)
create_buffer_view-IsView_example =
    create_buffer_view-IsView texels vulkan 0 true 3 view_info (some 80) one_buffer
      one_buffer-IsSound

-- The call succeeds.
create_buffer_view_succeeds :
    create_buffer_view texels vulkan 0 true 3 view_info (some 80) one_buffer
    ≡ some (
        answer
          (record one_buffer {
            buffer_views = record {
              live =
                  (80, record { device = 3; buffer = 32; format = 98; offset = 8; range = 28 })
                  ∷ [];
              members = 80 ∷ [];
            };
          })
          80)
unfolding create_buffer_view lookup contains put insert
create_buffer_view_succeeds = refl
