-- ===== src/Http2/Hpack/Huffman/Tree.antt =====
-- `TreeNode` and `TREE_LIST` of http/src/http2/hpack/huffman.rs.
use proxy_rs.Prelude.{ℕ, List, [], ◌∷◌}

pub record TreeNode : Type 0 where
  pub left : ℕ
  pub right : ℕ

-- `TreeNode::leaf`
abbrev pub leaf : ℕ → TreeNode
leaf value = record { left = 0; right = value }

-- `TreeNode::branch`
abbrev pub branch : ℕ → ℕ → TreeNode
branch left right = record { left = left; right = right }

unfoldable pub tree_list : List TreeNode
tree_list =
    branch 1 44
    ∷ branch 2 17
    ∷ branch 3 10
    ∷ branch 4 7
    ∷ branch 5 6
    ∷ leaf 48
    ∷ leaf 49
    ∷ branch 8 9
    ∷ leaf 50
    ∷ leaf 97
    ∷ branch 11 14
    ∷ branch 12 13
    ∷ leaf 99
    ∷ leaf 101
    ∷ branch 15 16
    ∷ leaf 105
    ∷ leaf 111
    ∷ branch 18 29
    ∷ branch 19 22
    ∷ branch 20 21
    ∷ leaf 115
    ∷ leaf 116
    ∷ branch 23 26
    ∷ branch 24 25
    ∷ leaf 32
    ∷ leaf 37
    ∷ branch 27 28
    ∷ leaf 45
    ∷ leaf 46
    ∷ branch 30 37
    ∷ branch 31 34
    ∷ branch 32 33
    ∷ leaf 47
    ∷ leaf 51
    ∷ branch 35 36
    ∷ leaf 52
    ∷ leaf 53
    ∷ branch 38 41
    ∷ branch 39 40
    ∷ leaf 54
    ∷ leaf 55
    ∷ branch 42 43
    ∷ leaf 56
    ∷ leaf 57
    ∷ branch 45 80
    ∷ branch 46 61
    ∷ branch 47 54
    ∷ branch 48 51
    ∷ branch 49 50
    ∷ leaf 61
    ∷ leaf 65
    ∷ branch 52 53
    ∷ leaf 95
    ∷ leaf 98
    ∷ branch 55 58
    ∷ branch 56 57
    ∷ leaf 100
    ∷ leaf 102
    ∷ branch 59 60
    ∷ leaf 103
    ∷ leaf 104
    ∷ branch 62 69
    ∷ branch 63 66
    ∷ branch 64 65
    ∷ leaf 108
    ∷ leaf 109
    ∷ branch 67 68
    ∷ leaf 110
    ∷ leaf 112
    ∷ branch 70 73
    ∷ branch 71 72
    ∷ leaf 114
    ∷ leaf 117
    ∷ branch 74 77
    ∷ branch 75 76
    ∷ leaf 58
    ∷ leaf 66
    ∷ branch 78 79
    ∷ leaf 67
    ∷ leaf 68
    ∷ branch 81 112
    ∷ branch 82 97
    ∷ branch 83 90
    ∷ branch 84 87
    ∷ branch 85 86
    ∷ leaf 69
    ∷ leaf 70
    ∷ branch 88 89
    ∷ leaf 71
    ∷ leaf 72
    ∷ branch 91 94
    ∷ branch 92 93
    ∷ leaf 73
    ∷ leaf 74
    ∷ branch 95 96
    ∷ leaf 75
    ∷ leaf 76
    ∷ branch 98 105
    ∷ branch 99 102
    ∷ branch 100 101
    ∷ leaf 77
    ∷ leaf 78
    ∷ branch 103 104
    ∷ leaf 79
    ∷ leaf 80
    ∷ branch 106 109
    ∷ branch 107 108
    ∷ leaf 81
    ∷ leaf 82
    ∷ branch 110 111
    ∷ leaf 83
    ∷ leaf 84
    ∷ branch 113 128
    ∷ branch 114 121
    ∷ branch 115 118
    ∷ branch 116 117
    ∷ leaf 85
    ∷ leaf 86
    ∷ branch 119 120
    ∷ leaf 87
    ∷ leaf 89
    ∷ branch 122 125
    ∷ branch 123 124
    ∷ leaf 106
    ∷ leaf 107
    ∷ branch 126 127
    ∷ leaf 113
    ∷ leaf 118
    ∷ branch 129 136
    ∷ branch 130 133
    ∷ branch 131 132
    ∷ leaf 119
    ∷ leaf 120
    ∷ branch 134 135
    ∷ leaf 121
    ∷ leaf 122
    ∷ branch 137 144
    ∷ branch 138 141
    ∷ branch 139 140
    ∷ leaf 38
    ∷ leaf 42
    ∷ branch 142 143
    ∷ leaf 44
    ∷ leaf 59
    ∷ branch 145 148
    ∷ branch 146 147
    ∷ leaf 88
    ∷ leaf 90
    ∷ branch 149 156
    ∷ branch 150 153
    ∷ branch 151 152
    ∷ leaf 33
    ∷ leaf 34
    ∷ branch 154 155
    ∷ leaf 40
    ∷ leaf 41
    ∷ branch 157 162
    ∷ branch 158 159
    ∷ leaf 63
    ∷ branch 160 161
    ∷ leaf 39
    ∷ leaf 43
    ∷ branch 163 168
    ∷ branch 164 165
    ∷ leaf 124
    ∷ branch 166 167
    ∷ leaf 35
    ∷ leaf 62
    ∷ branch 169 176
    ∷ branch 170 173
    ∷ branch 171 172
    ∷ leaf 0
    ∷ leaf 36
    ∷ branch 174 175
    ∷ leaf 64
    ∷ leaf 91
    ∷ branch 177 180
    ∷ branch 178 179
    ∷ leaf 93
    ∷ leaf 126
    ∷ branch 181 184
    ∷ branch 182 183
    ∷ leaf 94
    ∷ leaf 125
    ∷ branch 185 188
    ∷ branch 186 187
    ∷ leaf 60
    ∷ leaf 96
    ∷ branch 189 190
    ∷ leaf 123
    ∷ branch 191 220
    ∷ branch 192 201
    ∷ branch 193 196
    ∷ branch 194 195
    ∷ leaf 92
    ∷ leaf 195
    ∷ branch 197 198
    ∷ leaf 208
    ∷ branch 199 200
    ∷ leaf 128
    ∷ leaf 130
    ∷ branch 202 209
    ∷ branch 203 206
    ∷ branch 204 205
    ∷ leaf 131
    ∷ leaf 162
    ∷ branch 207 208
    ∷ leaf 184
    ∷ leaf 194
    ∷ branch 210 213
    ∷ branch 211 212
    ∷ leaf 224
    ∷ leaf 226
    ∷ branch 214 217
    ∷ branch 215 216
    ∷ leaf 153
    ∷ leaf 161
    ∷ branch 218 219
    ∷ leaf 167
    ∷ leaf 172
    ∷ branch 221 266
    ∷ branch 222 237
    ∷ branch 223 230
    ∷ branch 224 227
    ∷ branch 225 226
    ∷ leaf 176
    ∷ leaf 177
    ∷ branch 228 229
    ∷ leaf 179
    ∷ leaf 209
    ∷ branch 231 234
    ∷ branch 232 233
    ∷ leaf 216
    ∷ leaf 217
    ∷ branch 235 236
    ∷ leaf 227
    ∷ leaf 229
    ∷ branch 238 251
    ∷ branch 239 244
    ∷ branch 240 241
    ∷ leaf 230
    ∷ branch 242 243
    ∷ leaf 129
    ∷ leaf 132
    ∷ branch 245 248
    ∷ branch 246 247
    ∷ leaf 133
    ∷ leaf 134
    ∷ branch 249 250
    ∷ leaf 136
    ∷ leaf 146
    ∷ branch 252 259
    ∷ branch 253 256
    ∷ branch 254 255
    ∷ leaf 154
    ∷ leaf 156
    ∷ branch 257 258
    ∷ leaf 160
    ∷ leaf 163
    ∷ branch 260 263
    ∷ branch 261 262
    ∷ leaf 164
    ∷ leaf 169
    ∷ branch 264 265
    ∷ leaf 170
    ∷ leaf 173
    ∷ branch 267 306
    ∷ branch 268 283
    ∷ branch 269 276
    ∷ branch 270 273
    ∷ branch 271 272
    ∷ leaf 178
    ∷ leaf 181
    ∷ branch 274 275
    ∷ leaf 185
    ∷ leaf 186
    ∷ branch 277 280
    ∷ branch 278 279
    ∷ leaf 187
    ∷ leaf 189
    ∷ branch 281 282
    ∷ leaf 190
    ∷ leaf 196
    ∷ branch 284 291
    ∷ branch 285 288
    ∷ branch 286 287
    ∷ leaf 198
    ∷ leaf 228
    ∷ branch 289 290
    ∷ leaf 232
    ∷ leaf 233
    ∷ branch 292 299
    ∷ branch 293 296
    ∷ branch 294 295
    ∷ leaf 1
    ∷ leaf 135
    ∷ branch 297 298
    ∷ leaf 137
    ∷ leaf 138
    ∷ branch 300 303
    ∷ branch 301 302
    ∷ leaf 139
    ∷ leaf 140
    ∷ branch 304 305
    ∷ leaf 141
    ∷ leaf 143
    ∷ branch 307 338
    ∷ branch 308 323
    ∷ branch 309 316
    ∷ branch 310 313
    ∷ branch 311 312
    ∷ leaf 147
    ∷ leaf 149
    ∷ branch 314 315
    ∷ leaf 150
    ∷ leaf 151
    ∷ branch 317 320
    ∷ branch 318 319
    ∷ leaf 152
    ∷ leaf 155
    ∷ branch 321 322
    ∷ leaf 157
    ∷ leaf 158
    ∷ branch 324 331
    ∷ branch 325 328
    ∷ branch 326 327
    ∷ leaf 165
    ∷ leaf 166
    ∷ branch 329 330
    ∷ leaf 168
    ∷ leaf 174
    ∷ branch 332 335
    ∷ branch 333 334
    ∷ leaf 175
    ∷ leaf 180
    ∷ branch 336 337
    ∷ leaf 182
    ∷ leaf 183
    ∷ branch 339 360
    ∷ branch 340 347
    ∷ branch 341 344
    ∷ branch 342 343
    ∷ leaf 188
    ∷ leaf 191
    ∷ branch 345 346
    ∷ leaf 197
    ∷ leaf 231
    ∷ branch 348 353
    ∷ branch 349 350
    ∷ leaf 239
    ∷ branch 351 352
    ∷ leaf 9
    ∷ leaf 142
    ∷ branch 354 357
    ∷ branch 355 356
    ∷ leaf 144
    ∷ leaf 145
    ∷ branch 358 359
    ∷ leaf 148
    ∷ leaf 159
    ∷ branch 361 380
    ∷ branch 362 369
    ∷ branch 363 366
    ∷ branch 364 365
    ∷ leaf 171
    ∷ leaf 206
    ∷ branch 367 368
    ∷ leaf 215
    ∷ leaf 225
    ∷ branch 370 373
    ∷ branch 371 372
    ∷ leaf 236
    ∷ leaf 237
    ∷ branch 374 377
    ∷ branch 375 376
    ∷ leaf 199
    ∷ leaf 207
    ∷ branch 378 379
    ∷ leaf 234
    ∷ leaf 235
    ∷ branch 381 414
    ∷ branch 382 397
    ∷ branch 383 390
    ∷ branch 384 387
    ∷ branch 385 386
    ∷ leaf 192
    ∷ leaf 193
    ∷ branch 388 389
    ∷ leaf 200
    ∷ leaf 201
    ∷ branch 391 394
    ∷ branch 392 393
    ∷ leaf 202
    ∷ leaf 205
    ∷ branch 395 396
    ∷ leaf 210
    ∷ leaf 213
    ∷ branch 398 405
    ∷ branch 399 402
    ∷ branch 400 401
    ∷ leaf 218
    ∷ leaf 219
    ∷ branch 403 404
    ∷ leaf 238
    ∷ leaf 240
    ∷ branch 406 409
    ∷ branch 407 408
    ∷ leaf 242
    ∷ leaf 243
    ∷ branch 410 411
    ∷ leaf 255
    ∷ branch 412 413
    ∷ leaf 203
    ∷ leaf 204
    ∷ branch 415 446
    ∷ branch 416 431
    ∷ branch 417 424
    ∷ branch 418 421
    ∷ branch 419 420
    ∷ leaf 211
    ∷ leaf 212
    ∷ branch 422 423
    ∷ leaf 214
    ∷ leaf 221
    ∷ branch 425 428
    ∷ branch 426 427
    ∷ leaf 222
    ∷ leaf 223
    ∷ branch 429 430
    ∷ leaf 241
    ∷ leaf 244
    ∷ branch 432 439
    ∷ branch 433 436
    ∷ branch 434 435
    ∷ leaf 245
    ∷ leaf 246
    ∷ branch 437 438
    ∷ leaf 247
    ∷ leaf 248
    ∷ branch 440 443
    ∷ branch 441 442
    ∷ leaf 250
    ∷ leaf 251
    ∷ branch 444 445
    ∷ leaf 252
    ∷ leaf 253
    ∷ branch 447 476
    ∷ branch 448 461
    ∷ branch 449 454
    ∷ branch 450 451
    ∷ leaf 254
    ∷ branch 452 453
    ∷ leaf 2
    ∷ leaf 3
    ∷ branch 455 458
    ∷ branch 456 457
    ∷ leaf 4
    ∷ leaf 5
    ∷ branch 459 460
    ∷ leaf 6
    ∷ leaf 7
    ∷ branch 462 469
    ∷ branch 463 466
    ∷ branch 464 465
    ∷ leaf 8
    ∷ leaf 11
    ∷ branch 467 468
    ∷ leaf 12
    ∷ leaf 14
    ∷ branch 470 473
    ∷ branch 471 472
    ∷ leaf 15
    ∷ leaf 16
    ∷ branch 474 475
    ∷ leaf 17
    ∷ leaf 18
    ∷ branch 477 492
    ∷ branch 478 485
    ∷ branch 479 482
    ∷ branch 480 481
    ∷ leaf 19
    ∷ leaf 20
    ∷ branch 483 484
    ∷ leaf 21
    ∷ leaf 23
    ∷ branch 486 489
    ∷ branch 487 488
    ∷ leaf 24
    ∷ leaf 25
    ∷ branch 490 491
    ∷ leaf 26
    ∷ leaf 27
    ∷ branch 493 500
    ∷ branch 494 497
    ∷ branch 495 496
    ∷ leaf 28
    ∷ leaf 29
    ∷ branch 498 499
    ∷ leaf 30
    ∷ leaf 31
    ∷ branch 501 504
    ∷ branch 502 503
    ∷ leaf 127
    ∷ leaf 220
    ∷ branch 505 506
    ∷ leaf 249
    ∷ branch 507 510
    ∷ branch 508 509
    ∷ leaf 10
    ∷ leaf 13
    ∷ branch 511 512
    ∷ leaf 22
    ∷ leaf 256
    ∷ []
